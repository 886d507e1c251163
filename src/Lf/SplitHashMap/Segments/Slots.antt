-- ===== src/Lf/SplitHashMap/Segments/Slots.antt =====
-- lf/splithashmap.go: the pointers that calls of `bucketPtr` return.
use mathlib.Core.Path.{subst}
use native.Mathlib.Decide.{ℕ_discrete}
use native.Mathlib.Nat.{div-lt_iff_lt-mul}
use lockfree.Base.{
  ℕ, ◌+◌, ◌/◌, ◌%◌, ◌^◌, ◌<◌, ◌≡◌, ◌≢◌, ◌⊎◌, ◌↔◌, refl, sym, ap, ◌∙◌, inl, inr, Option, none, some,
  true, List, [], ◌∷◌, All, All-at, All-imp, get_elem?, ltb, update, update_self, update_ne, arith,
}
use lockfree.Lf.List.Paths.{some_inj}
use lockfree.Lf.SplitHashMap.Segments.{
  Segments, SegPc, seg_idle, seg_load, seg_swap, seg_reload, pointing, seg_nil, out_of_range,
  seg_found, seg_swapped, seg_reloaded, seg_access, SegSystem, seg_turn, seg_run, seg_at_rest,
}

-- The segments of the array are allocated, and no two are the same.
record SegInv (m : Segments) : Type 0 where
  pub old : (k s : ℕ) → m.segments k ≡ some s → s < m.alloc
  pub differ : (k l s : ℕ) → m.segments k ≡ some s → m.segments l ≡ some s → k ≡ l

-- What holds of goroutine `j`; `owner` says who has made a segment.
abbrev SegOk : Segments → (ℕ → ℕ) → ℕ → SegPc → Type 0
SegOk m owner j seg_idle = Unit
SegOk m owner j (seg_load i) = i < 2 ^ 16
SegOk m owner j (seg_swap i made) =
    (i < 2 ^ 16) × (made < m.alloc) × (owner made ≡ j) × ((k : ℕ) → m.segments k ≢ some made)
SegOk m owner j (seg_reload i) = (i < 2 ^ 16) × ((s : ℕ) × (m.segments (i / 2 ^ 8) ≡ some s))
SegOk m owner j (pointing i s place) = (m.segments (i / 2 ^ 8) ≡ some s) × (place ≡ i % 2 ^ 8)
SegOk m owner j seg_nil = ⊥
SegOk m owner j out_of_range = ⊥

-- Segments stay where they are.
abbrev Grows : Segments → Segments → Type 0
Grows m m' = (k s : ℕ) → m.segments k ≡ some s → m'.segments k ≡ some s

abbrev SegOutcome : Segments → (ℕ → ℕ) → ℕ → Segments × SegPc → Type 0
SegOutcome m owner j (m', p') =
    (owner' : ℕ → ℕ) × SegInv m'
    × SegOk m' owner' j p'
    × Grows m m'
    × ((l : ℕ) (q : SegPc) → j ≢ l → SegOk m owner l q → SegOk m' owner' l q)

module _ (m : Segments) (owner : ℕ → ℕ) (j : ℕ) (inv : SegInv m) where
  looks : (p : SegPc) → SegOk m owner j p → SegOutcome m owner j (m, p)
  looks p ok = (owner, inv, ok, (λ k s e. e), λ l q ne kept. kept)

  other-SegOk :
      (m' : Segments) (owner' : ℕ → ℕ)
      → Grows m m'
      → ((l i made : ℕ)
          → j ≢ l
          → SegOk m owner l (seg_swap i made)
          → SegOk m' owner' l (seg_swap i made))
      → (l : ℕ) (q : SegPc) → j ≢ l
      → SegOk m owner l q
      → SegOk m' owner' l q
  other-SegOk m' owner' grows swap l seg_idle ne ok = tt
  other-SegOk m' owner' grows swap l (seg_load i) ne ok = ok
  other-SegOk m' owner' grows swap l (seg_swap i made) ne ok = swap l i made ne ok
  other-SegOk m' owner' grows swap l (seg_reload i) ne (lt, (s, e)) =
      (lt, (s, grows (i / 2 ^ 8) s e))
  other-SegOk m' owner' grows swap l (pointing i s place) ne (e, at) = (grows (i / 2 ^ 8) s e, at)
  other-SegOk m' owner' grows swap l seg_nil ne ok = ok
  other-SegOk m' owner' grows swap l out_of_range ne ok = ok

  found-SegOutcome :
      (i : ℕ) (o : Option ℕ)
      → i < 2 ^ 16
      → m.segments (i / 2 ^ 8) ≡ o
      → SegOutcome m owner j (seg_found m i o)
  found-SegOutcome i none lt e =
      let m' = record m { alloc = m.alloc + 1 } in
      let owner' = update owner m.alloc j in
      let fresh : (k : ℕ) → m.segments k ≢ some m.alloc =
        λ k at. let low = inv.old k m.alloc at in absurd (omega arith) in
      (
        owner',
        (record { old = λ k s at. let low = inv.old k s at in omega arith; differ = inv.differ }),
        (lt, omega arith, update_self owner m.alloc j, fresh),
        (λ k s at. at),
        other-SegOk m' owner' (λ k s at. at)
            (λ l c made ne (c_lt, low, own, off).
              (c_lt, omega arith, update_ne owner j (λ z. omega arith) ∙ own, off)),
      )
  found-SegOutcome i (some s) lt e = looks (pointing i s (i % 2 ^ 8)) (e, refl)

  swapped-SegOutcome :
      (i made : ℕ) (o : Option ℕ)
      → SegOk m owner j (seg_swap i made)
      → m.segments (i / 2 ^ 8) ≡ o
      → SegOutcome m owner j (seg_swapped m i made o)
  swapped-SegOutcome i made none (lt, low, own, off) e =
      let n = i / 2 ^ 8 in
      let segments' = update m.segments n (some made) in
      let m' = record m { segments = segments' } in
      let here : segments' n ≡ some made = update_self m.segments n (some made) in
      let grows : Grows m m' = λ k s at. elim (ℕ_discrete n k) [
        | yes same ↦ let z = sym e ∙ ap m.segments same ∙ at in ground arith
        | no ne ↦ update_ne m.segments (some made) ne ∙ at
      ] in
      let back : (k s : ℕ)
          → segments' k ≡ some s
          → ((n ≡ k) × (made ≡ s)) ⊎ (m.segments k ≡ some s) =
        λ k s at. elim (ℕ_discrete n k) [
          | yes same ↦ inl (same, some_inj (sym here ∙ ap segments' same ∙ at))
          | no ne ↦ inr (sym (update_ne m.segments (some made) ne) ∙ at)
        ] in
      (
        owner,
        (record {
          old = λ k s at. elim (back k s at) [
            | inl (there, same) ↦ subst (λ x. x < m.alloc) same low
            | inr was ↦ inv.old k s was
          ];
          differ = λ k l s at at'. elim (back k s at) [
            | inl (k_here, same) ↦ elim (back l s at') [
              | inl (l_here, same') ↦ sym k_here ∙ l_here
              | inr was ↦ absurd (off l (was ∙ ap (λ (x : ℕ). some x) (sym same)))
            ]
            | inr was ↦ elim (back l s at') [
              | inl (l_here, same) ↦ absurd (off k (was ∙ ap (λ (x : ℕ). some x) (sym same)))
              | inr was' ↦ inv.differ k l s was was'
            ]
          ];
        }),
        (here, refl),
        grows,
        other-SegOk m' owner grows (λ l c made' ne (c_lt, low', own', off'). (
          c_lt,
          low',
          own',
          λ k at. elim (back k made' at) [
            | inl (there, same) ↦ ne (sym own ∙ ap owner same ∙ own')
            | inr was ↦ off' k was
          ],
        )),
      )
  swapped-SegOutcome i made (some s) (lt, low, own, off) e = looks (seg_reload i) (lt, (s, e))

  access-SegOutcome :
      (b : ℕ) (p : SegPc) → b < 2 ^ 16 → SegOk m owner j p → SegOutcome m owner j (seg_access b m p)
  unfolding seg_access
  access-SegOutcome b seg_idle b_lt ok = looks (seg_load b) b_lt
  access-SegOutcome b (pointing i s place) b_lt ok = looks (seg_load b) b_lt
  access-SegOutcome b (seg_load i) b_lt lt =
      let small = (div-lt_iff_lt-mul {k = 2 ^ 8} {x = i} {y = 2 ^ 8} (omega arith)).1 lt in
      let inside : ltb (i / 2 ^ 8) (2 ^ 8) ≡ true = ground arith in
      rw inside (found-SegOutcome i (m.segments (i / 2 ^ 8)) lt refl)
  access-SegOutcome b (seg_swap i made) b_lt ok =
      swapped-SegOutcome i made (m.segments (i / 2 ^ 8)) ok refl
  access-SegOutcome b (seg_reload i) b_lt (lt, (s, e)) =
      subst (λ x. SegOutcome m owner j (m, seg_reloaded i x)) (sym e)
        (looks (pointing i s (i % 2 ^ 8)) (e, refl))
  access-SegOutcome b seg_nil b_lt ok = looks seg_nil ok
  access-SegOutcome b out_of_range b_lt ok = looks out_of_range ok

record SegSystemOk (s : SegSystem) (owner : ℕ → ℕ) : Type 0 where
  pub inv : SegInv s.mem
  pub local : (j : ℕ) → SegOk s.mem owner j (s.pc j)

-- Neither a nil dereference nor an index out of range; a pointer is where the segments lead.
abbrev IsSlot : Segments → SegPc → Type 0
IsSlot m (pointing i s place) = (m.segments (i / 2 ^ 8) ≡ some s) × (place ≡ i % 2 ^ 8)
IsSlot m seg_nil = ⊥
IsSlot m out_of_range = ⊥
IsSlot m p = Unit

-- The call has not panicked.
abbrev pub IsReached : SegPc → Type 0
IsReached seg_nil = ⊥
IsReached out_of_range = ⊥
IsReached p = Unit

SegOk-IsSlot : (m : Segments) (owner : ℕ → ℕ) (j : ℕ) (p : SegPc) → SegOk m owner j p → IsSlot m p
SegOk-IsSlot m owner j (pointing i s place) ok = ok
SegOk-IsSlot m owner j seg_nil ok = ok
SegOk-IsSlot m owner j out_of_range ok = ok
SegOk-IsSlot m owner j p ok = tt

IsSlot-Grows : (m m' : Segments) (p : SegPc) → Grows m m' → IsSlot m p → IsSlot m' p
IsSlot-Grows m m' (pointing i s place) grows (e, at) = (grows (i / 2 ^ 8) s e, at)
IsSlot-Grows m m' seg_nil grows ok = ok
IsSlot-Grows m m' out_of_range grows ok = ok
IsSlot-Grows m m' p grows ok = tt

IsSlot-IsReached : (m : Segments) (p : SegPc) → IsSlot m p → IsReached p
IsSlot-IsReached m seg_nil ok = ok
IsSlot-IsReached m out_of_range ok = ok
IsSlot-IsReached m p ok = tt

turn-SegSystemOk :
    (s : SegSystem) (owner : ℕ → ℕ) (j b : ℕ)
    → b < 2 ^ 16
    → SegSystemOk s owner
    → (owner' : ℕ → ℕ) × SegSystemOk (seg_turn s j b) owner' × Grows s.mem (seg_turn s j b).mem
turn-SegSystemOk s owner j b lt ok =
    let (owner', inv', ok', grows, others) =
      access-SegOutcome s.mem owner j ok.inv b (s.pc j) lt (ok.local j) in
    let p = (seg_access b s.mem (s.pc j)).1 in
    (
      owner',
      (record {
        inv = inv';
        local = λ l. elim (ℕ_discrete j l) [
          | yes at ↦
              subst (λ k. SegOk (seg_turn s j b).mem owner' k (update s.pc j p k)) at
                (rw (update_self s.pc j p) ok')
          | no ne ↦ rw (update_ne s.pc p ne) (others l (s.pc l) ne (ok.local l))
        ];
      }),
      grows,
    )

run-SegSystemOk :
    (ts : List (ℕ × ℕ)) (s : SegSystem) (owner : ℕ → ℕ)
    → All (λ t. t.1 < 2 ^ 16) ts
    → SegSystemOk s owner
    → (owner' : ℕ → ℕ) × SegSystemOk (seg_run s ts).1 owner'
      × Grows s.mem (seg_run s ts).1.mem
      × All (IsSlot (seg_run s ts).1.mem) (seg_run s ts).0
unfolding seg_run
run-SegSystemOk [] s owner lt ok = (owner, ok, (λ k t e. e), tt)
run-SegSystemOk ((j, b) ∷ ts) s owner (lt, lts) ok =
    let (owner', ok', grows) = turn-SegSystemOk s owner j b lt ok in
    let (owner'', ok'', grows', slots) = run-SegSystemOk ts (seg_turn s j b) owner' lts ok' in
    (
      owner'',
      ok'',
      (λ k t e. grows' k t (grows k t e)),
      (
        IsSlot-Grows (seg_turn s j b).mem (seg_run (seg_turn s j b) ts).1.mem
            ((seg_turn s j b).pc j) grows'
            (SegOk-IsSlot (seg_turn s j b).mem owner' j ((seg_turn s j b).pc j) (ok'.local j)),
        slots,
      ),
    )

-- Under every schedule of calls of `bucketPtr` for buckets below 2 ^ 16, any two pointers that are
-- returned are the same if and only if they are of the same bucket, and no call dereferences a nil
-- pointer or has an index out of range.
pub seg_run_agrees :
    (ts : List (ℕ × ℕ)) (k l i c s t p q : ℕ)
    → All (λ x. x.1 < 2 ^ 16) ts
    → get_elem? (seg_run seg_at_rest ts).0 k ≡ some (pointing i s p)
    → get_elem? (seg_run seg_at_rest ts).0 l ≡ some (pointing c t q)
    → (i ≡ c ↔ ((s ≡ t) × (p ≡ q))) × All IsReached (seg_run seg_at_rest ts).0
seg_run_agrees ts k l i c s t p q lt at_k at_l =
    let (owner, ok, grows, slots) =
      run-SegSystemOk ts seg_at_rest (λ x. 0) lt
        (record {
          inv = record { old = λ n x e. ground arith; differ = λ n x y e e'. ground arith };
          local = λ j. tt;
        }) in
    let m = (seg_run seg_at_rest ts).1.mem in
    let (e, place) = All-at (IsSlot m) (seg_run seg_at_rest ts).0 slots k (pointing i s p) at_k in
    let (e', place') = All-at (IsSlot m) (seg_run seg_at_rest ts).0 slots l (pointing c t q) at_l in
    (
      (
        (λ same.
            let segment : s ≡ t =
              some_inj (sym e ∙ ap (λ (x : ℕ). m.segments (x / 2 ^ 8)) same ∙ e') in
            (segment, place ∙ ap (λ (x : ℕ). x % 2 ^ 8) same ∙ sym place')),
        (λ (segment, inner).
            let high =
              ok.inv.differ (i / 2 ^ 8) (c / 2 ^ 8) s e
                (e' ∙ ap (λ (x : ℕ). some x) (sym segment)) in
            let low = sym place ∙ inner ∙ place' in omega arith),
      ),
      All-imp (seg_run seg_at_rest ts).0 (λ x slot. IsSlot-IsReached m x slot) slots,
    )
