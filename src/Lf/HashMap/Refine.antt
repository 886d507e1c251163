-- ===== src/Lf/HashMap/Refine.antt =====
-- lf/hashmap.go: the hash map is a linearizable set of keys.
use mathlib.Core.Path.{subst, fun_ext}
use native.Mathlib.Nat.{mod-lt}
use native.Mathlib.Decide.{ℕ_discrete}
use lockfree.Base.{
  ℕ, ◌%◌, ◌≤◌, ◌<◌, ◌≡◌, ◌≢◌, inl, inr, refl, sym, ap, ◌∙◌, none, some, Bool, Bool-cases, false,
  List, arith, ltb, if◌then◌else◌, update, update_self, update_ne,
}
use lockfree.Base.Less.{Less, IsStrictOrder}
use lockfree.Linear.{Event, call, System, run}
use lockfree.Linear.Spec.{Status, Abstract, LinRun, unused, Waits, Watch}
use lockfree.Linear.Simulate.{Local, Simulation, Together, run-LinRun}
use lockfree.Lf.List.{ListOp, key_of, key_set, Pc, idle}
use lockfree.Lf.List.Memory.{Nodes, new_list}
use lockfree.Lf.List.Access.{access}
use lockfree.Lf.List.Inv.{Past, Inv, PcOk}
use lockfree.Lf.List.Paths.{Outcome}
use lockfree.Lf.List.Refine.{access-Outcome, sentinels, new_list-Inv, IsSafe, PcOk-IsSafe}
use lockfree.Lf.HashMap.{bucket, new_hash_map, HashPc, in_bucket, target, hash_access, hash_machine}
use lockfree.Lf.HashMap.Routes.{access-call}
use lockfree.Lf.HashMap.Buckets.{IsConsistent, restrict, Routed, Watch-lift, Local-lift}

module _ {K V : Type 0} {less : Less K} (order : IsStrictOrder less) (hash : K → ℕ) (n : ℕ)
    (agree : IsConsistent less (bucket hash n)) where
  -- Each bucket is a list of its keys.
  abbrev pub HashInv : (ℕ → Nodes K V) → (ℕ → Past) → (K → Bool) → Type 0
  HashInv buckets g keys =
      (b : ℕ) → Inv less (buckets b) (g b) (restrict V less (bucket hash n) keys b)

  abbrev pub HashPcOk :
      (ℕ → Nodes K V) → (ℕ → Past) → ℕ → HashPc K V → Status (key_set V less) → Type 0
  HashPcOk buckets g i (in_bucket b p) t =
      PcOk less (buckets b) (g b) i p t × Routed V less (bucket hash n) t b

  -- The bucket of a goroutine that has no call is of no account.
  target-ok :
      (buckets : ℕ → Nodes K V) (g : ℕ → Past) (i b : ℕ) (op : ListOp K V) (p : Pc K V)
      (t : Status (key_set V less))
      → HashPcOk buckets g i (in_bucket b p) t
      → HashPcOk buckets g i (in_bucket (target less hash n op b p) p) t
  target-ok buckets g i b op idle t (free, routed) =
      (free, λ o w. absurd (subst (λ s. Waits (key_set V less) s o) free w))
  target-ok buckets g i b op p t ok = ok

  module _ (i : ℕ) (buckets : ℕ → Nodes K V) (g : ℕ → Past) (keys : K → Bool) (c : ℕ) where
    -- What an access in bucket `c` does to the buckets.
    abbrev HashOutcome :
        Status (key_set V less) → Nodes K V × Pc K V × Event (key_set V less) → Type 0
    HashOutcome t (m', p', e) =
        (g' : ℕ → Past) × (keys' : K → Bool) × (t' : Status (key_set V less)) × HashInv
          (update buckets c m') g' keys'
        × HashPcOk (update buckets c m') g' i (in_bucket c p') t'
        × ((j : ℕ) (q : HashPc K V) (u : Status (key_set V less))
            → j ≢ i
            → HashPcOk buckets g j q u
            → (u' : Status (key_set V less)) × Watch (key_set V less) keys' u u'
              × HashPcOk (update buckets c m') g' j q u')
        × Local keys t keys' t' e

    module _ (m' : Nodes K V) (g1 : Past) (keys1 keys' : K → Bool) (inv : HashInv buckets g keys)
        (inv1 : Inv less m' g1 keys1) (at_c : keys1 ≡ restrict V less (bucket hash n) keys' c)
        (off_c : (b : ℕ)
          → c ≢ b
          → restrict V less (bucket hash n) keys b ≡ restrict V less (bucket hash n) keys' b) where
      after_Inv : HashInv (update buckets c m') (update g c g1) keys'
      after_Inv b = elim (ℕ_discrete c b) [
        | yes here ↦
            subst
              (λ x.
                Inv less (update buckets c m' x) (update g c g1 x)
                  (restrict V less (bucket hash n) keys' x))
              here (rw (update_self buckets c m', update_self g c g1, sym at_c) inv1)
        | no ne ↦ rw (update_ne buckets m' ne, update_ne g g1 ne, sym (off_c b ne)) (inv b)
      ]

      -- The goroutines in the same bucket, and those in the others.
      after_others :
          ((j : ℕ) (q : Pc K V) (u : Status (key_set V less))
            → j ≢ i
            → PcOk less (buckets c) (g c) j q u
            → (u' : Status (key_set V less)) × Watch (key_set V less) keys1 u u'
              × PcOk less m' g1 j q u')
          → (j : ℕ) (q : HashPc K V) (u : Status (key_set V less)) → j ≢ i
          → HashPcOk buckets g j q u
          → (u' : Status (key_set V less)) × Watch (key_set V less) keys' u u'
            × HashPcOk (update buckets c m') (update g c g1) j q u'
      after_others others j (in_bucket b q) u ne (ok, routed) = elim (ℕ_discrete c b) [
        | yes here ↦
            let (u', watch, ok') =
              others j q u ne (subst (λ x. PcOk less (buckets x) (g x) j q u) (sym here) ok) in
            let (watch', routed') =
              Watch-lift V less (bucket hash n) agree c keys' u u'
                (subst (λ x. Routed V less (bucket hash n) u x) (sym here) routed)
                (subst (λ x. Watch (key_set V less) x u u') at_c watch) in
            (
              u',
              watch',
              subst (λ x. HashPcOk (update buckets c m') (update g c g1) j (in_bucket x q) u') here
                  (rw (update_self buckets c m', update_self g c g1) ok', routed'),
            )
        | no off ↦ (u, inl refl, (rw (update_ne buckets m' off, update_ne g g1 off) ok, routed))
      ]

    -- An access in bucket `c`, from what it does to that list.
    lift-HashOutcome :
        (t : Status (key_set V less)) (m' : Nodes K V) (p' : Pc K V) (e : Event (key_set V less))
        → HashInv buckets g keys
        → Routed V less (bucket hash n) t c
        → ((op : ListOp K V) → e ≡ call op → bucket hash n (key_of op) ≡ c)
        → Outcome less i (buckets c) (g c) (restrict V less (bucket hash n) keys c) t (m', p', e)
        → HashOutcome t (m', p', e)
    lift-HashOutcome t m' p' e inv routed calls (g1, keys1, t', inv1, own, others, local) =
        let (keys', at_c, off_c, local', routed') =
          Local-lift V less (bucket hash n) agree c keys keys1 t t' e routed calls local in
        (
          update g c g1,
          keys',
          t',
          after_Inv m' g1 keys1 keys' inv inv1 at_c off_c,
          (rw (update_self buckets c m', update_self g c g1) own, routed'),
          after_others m' g1 keys1 keys' inv inv1 at_c off_c others,
          local',
        )

  pub hash_moves :
      (i : ℕ) (op : ListOp K V) (buckets : ℕ → Nodes K V) (g : ℕ → Past) (keys : K → Bool)
      (p : HashPc K V) (t : Status (key_set V less))
      → HashInv buckets g keys
      → HashPcOk buckets g i p t
      → (let (m', p', e) = hash_access less hash n i op buckets p in
          (g' : ℕ → Past) × (keys' : K → Bool) × (t' : Status (key_set V less)) × HashInv m' g'
            keys'
          × HashPcOk m' g' i p' t'
          × ((j : ℕ) (q : HashPc K V) (u : Status (key_set V less))
              → j ≢ i
              → HashPcOk buckets g j q u
              → (u' : Status (key_set V less)) × Watch (key_set V less) keys' u u'
                × HashPcOk m' g' j q u')
          × Local keys t keys' t' e)
  unfolding hash_access
  hash_moves i op buckets g keys (in_bucket b p) t inv ok =
      let c = target less hash n op b p in
      let (own, routed) = target-ok buckets g i b op p t ok in
      lift-HashOutcome i buckets g keys c t (access less i op (buckets c) p).0
        (access less i op (buckets c) p).1 (access less i op (buckets c) p).2 inv routed
        (λ op' e. access-call less (buckets c) hash n i b op op' p e)
        (access-Outcome order i (buckets c) (g c) (restrict V less (bucket hash n) keys c) (inv c)
          op p t own)

  abbrev pub hash_simulation : Simulation (hash_machine {V = V} less hash n)
  hash_simulation = record { Ghost = ℕ → Past; Inv = HashInv; PcOk = HashPcOk; moves = hash_moves }

-- A hash map on which nobody has called yet.
abbrev pub hash_at_rest :
    {K V : Type 0} (less : Less K) (hash : K → ℕ) (n : ℕ)
    → (ℕ → Nodes K V)
    → System (hash_machine {V = V} less hash n)
hash_at_rest less hash n buckets = record { mem = buckets; pc = λ i. in_bucket 0 idle }

-- A goroutine that has not panicked, in a bucket that exists.
abbrev pub IsHashSafe : {K V : Type 0} → HashPc K V → Type 0
IsHashSafe (in_bucket b p) = IsSafe p

HashPcOk-IsHashSafe :
    {K V : Type 0} {less : Less K} (order : IsStrictOrder less) (hash : K → ℕ) (n : ℕ)
    (agree : IsConsistent less (bucket hash n)) (buckets : ℕ → Nodes K V) (g : ℕ → Past) (j : ℕ)
    (p : HashPc K V) (t : Status (key_set V less))
    → HashPcOk order hash n agree buckets g j p t
    → IsHashSafe p
HashPcOk-IsHashSafe {less = less} order hash n agree buckets g j (in_bucket b p) t (ok, routed) =
    PcOk-IsSafe less (buckets b) (g b) j p t ok

new_hash_map-some :
    {K V : Type 0} (n : ℕ) (key : K) (val : V) (buckets : ℕ → Nodes K V)
    → new_hash_map n key val ≡ some buckets
    → (1 ≤ n) × ((λ b. new_list key val) ≡ buckets)
unfolding new_hash_map
new_hash_map-some {K} {V} n key val buckets e =
    let made : ℕ → Nodes K V = λ b. new_list key val in
    elim (Bool-cases (ltb n 1)) [
      | inl few ↦
          let z : none ≡ some buckets =
            sym (ap (λ (b : Bool). if b then none else some made) few) ∙ e in
          cc
      | inr enough ↦
          let z : some made ≡ some buckets =
            sym (ap (λ (b : Bool). if b then none else some made) enough) ∙ e in
          (ground arith, cc)
    ]

module _ {K V : Type 0} {less : Less K} (order : IsStrictOrder less) (hash : K → ℕ) (n : ℕ)
    (agree : IsConsistent less (bucket hash n)) (key : K) (val : V) where
  new_buckets-Together :
      Together
        (hash_machine {V = V} less hash n)
        (hash_simulation order hash n agree)
        (hash_at_rest less hash n (λ b. new_list key val))
        (λ b. sentinels)
        (unused (key_set V less) (λ j. false))
  new_buckets-Together = record {
    inv = λ b.
        let none_in : restrict V less (bucket hash n) (λ j. false) b ≡ (λ j. false) =
          fun_ext (λ j. ground arith) in
        subst (λ x. Inv less (new_list key val) sentinels x) (sym none_in)
          (new_list-Inv less key val);
    local = λ i. (refl, λ op w. absurd w);
  }

-- If `less` is a strict order, keys that it does not tell apart have the same hash, and `NewHashMap`
-- returns a hash map, then under every schedule of any number of goroutines the calls of `Set`, `Get`
-- and `Del` on it start and return as those of one set of keys do in which each call takes effect at
-- one moment between its start and its return. Nothing dereferences a nil pointer, and the index of
-- every bucket is in range.
pub hash_run-LinRun :
    {K V : Type 0} (less : Less K) (order : IsStrictOrder less) (hash : K → ℕ)
    (agree : IsConsistent less hash) (n : ℕ) (key : K) (val : V) (buckets : ℕ → Nodes K V)
    → new_hash_map n key val ≡ some buckets
    → (ts : List (ℕ × ListOp K V))
    → (a : Abstract (key_set V less)) × LinRun
        (key_set V less)
        (unused (key_set V less) (λ j. false))
        (run (hash_machine {V = V} less hash n) (hash_at_rest less hash n buckets) ts).0
        a
      × ((i : ℕ)
          → IsHashSafe (
              (run (hash_machine {V = V} less hash n) (hash_at_rest less hash n buckets) ts).1.pc
                i))
      × ((k : K) → bucket hash n k < n)
hash_run-LinRun {K} {V} less order hash agree n key val buckets made ts =
    let (some_buckets, new) = new_hash_map-some n key val buckets made in
    let agree_n : IsConsistent less (bucket hash n) =
      λ x y e f. ap (λ (h : ℕ). h % n) (agree x y e f) in
    let (g, a, ok, lin) =
      run-LinRun (hash_machine {V = V} less hash n) (hash_simulation order hash n agree_n) ts
        (hash_at_rest less hash n buckets) (λ b. sentinels) (unused (key_set V less) (λ j. false))
        (subst
          (λ h.
            Together (hash_machine {V = V} less hash n) (hash_simulation order hash n agree_n)
              (hash_at_rest less hash n h) (λ b. sentinels) (unused (key_set V less) (λ j. false)))
          new (new_buckets-Together order hash n agree_n key val)) in
    (
      a,
      lin,
      (λ i.
          HashPcOk-IsHashSafe order hash n agree_n
            (run (hash_machine {V = V} less hash n) (hash_at_rest less hash n buckets) ts).1.mem g i
            _ (a.status i) (ok.local i)),
      λ k. mod-lt (hash k) (omega arith),
    )
