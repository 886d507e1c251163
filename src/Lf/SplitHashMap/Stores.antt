-- ===== src/Lf/SplitHashMap/Stores.antt =====
-- lf/splithashmap.go: what the stores do to the table.
use mathlib.Core.Path.{subst}
use native.Mathlib.Decide.{ℕ_discrete}
use lockfree.Base.{
  ℕ, ◌%◌, ◌≡◌, ◌≢◌, ◌⊎◌, inl, inr, refl, sym, ap, ◌∙◌, Option, Option-cases, none, some, Bool, true,
  false, arith, update, update_self, update_ne,
}
use lockfree.Base.Less.{Less, IsStrictOrder}
use lockfree.Linear.{Event, tau}
use lockfree.Linear.Spec.{Status, Watch}
use lockfree.Linear.Simulate.{Local, stays}
use lockfree.Lf.List.{key_set}
use lockfree.Lf.List.Memory.{Nodes}
use lockfree.Lf.List.Inv.{Inv, Keeps}
use lockfree.Lf.List.Paths.{some_inj}
use lockfree.Lf.List.Stores.{quiet-Inv, quiet-Keeps, makes, made-Inv, made-Keeps}
use lockfree.Lf.SplitHashMap.Size.{IsSize}
use lockfree.Lf.SplitHashMap.Memory.{SoKey, Split, so_less}
use lockfree.Lf.SplitHashMap.Keys.{IsWell, elements, so_less-IsStrictOrder}
use lockfree.Lf.SplitHashMap.Access.{Pc, first_of, make_node}
use lockfree.Lf.SplitHashMap.Inv.{Known, SplitInv, IsSentinel, Own, PcOk, Leaves}
use lockfree.Lf.SplitHashMap.Changes.{SplitInv-stays}
use lockfree.Lf.SplitHashMap.Others.{PcOk-stays}

-- What an access of goroutine `i`, with its call at `t`, does to a table with the keys `present`.
module _ {K V : Type 0} (less : Less K) (hash : K → ℕ) (blank : K) (i : ℕ) (m : Split K V)
    (g : Known K) (present : K → Bool) where
  abbrev pub Outcome :
      Status (key_set V less) → Split K V × Pc K V × Event (key_set V less) → Type 0
  Outcome t (m', p', e) =
      (g' : Known K) × (present' : K → Bool) × (t' : Status (key_set V less)) × SplitInv less hash
        blank m' g' present'
      × PcOk less hash blank m' g' i p' t'
      × ((j : ℕ) (q : Pc K V) (u : Status (key_set V less))
          → j ≢ i
          → PcOk less hash blank m g j q u
          → (u' : Status (key_set V less)) × Watch (key_set V less) present' u u'
            × PcOk less hash blank m' g' j q u')
      × Local present t present' t' e

module _ {K V : Type 0} {less : Less K} (order : IsStrictOrder less) (hash : K → ℕ)
    (agree : (x y : K) → less x y ≡ false → less y x ≡ false → hash x ≡ hash y) (blank : K) (i : ℕ)
    (m : Split K V) (g : Known K) (present : K → Bool)
    (inv : SplitInv less hash blank m g present) where
  outcome :
      (m' : Split K V) (g' : Known K) (present' : K → Bool) (t t' : Status (key_set V less))
      (p' : Pc K V) (e : Event (key_set V less))
      → SplitInv less hash blank m' g' present'
      → Leaves less hash blank m g i m' g'
      → PcOk less hash blank m' g' i p' t'
      → Local present t present' t' e
      → Outcome less hash blank i m g present t (m', p', e)
  outcome m' g' present' t t' p' e inv' x own local = (
    g',
    present',
    t',
    inv',
    own,
    (λ j q u ne k.
        PcOk-stays order hash agree blank i m g present inv m' g' present' inv' x j q u ne k),
    local,
  )

  -- A store of a value, of `count` or of `size`.
  pub quiet :
      (vals : ℕ → V) (n s : ℕ) (p' : Pc K V) (t t' : Status (key_set V less))
      (e : Event (key_set V less))
      → IsSize s
      → (let m' = record m { nodes = record m.nodes { val = vals; length = n }; size = s } in
          PcOk less hash blank m' g i p' t'
          → Local present t present t' e
          → Outcome less hash blank i m g present t (m', p', e))
  quiet vals n s p' t t' e size own local =
      outcome (record m { nodes = record m.nodes { val = vals; length = n }; size = s }) g present t
        t' p' e
        (record {
          list = quiet-Inv (so_less-IsStrictOrder order) i m.nodes g.past g.keys inv.list vals n;
          are_elements = inv.are_elements;
          well = inv.well;
          head_key = inv.head_key;
          head_bucket = inv.head_bucket;
          sentinels = inv.sentinels;
          size_ok = size;
        })
        (record {
          keeps = quiet-Keeps (so_less-IsStrictOrder order) i m.nodes g.past g.keys inv.list vals n;
          even_stays = λ x even h. h;
          bucket_stays = λ b a h. h;
        })
        own local

  pub no_store :
      (p' : Pc K V) (t t' : Status (key_set V less)) (e : Event (key_set V less))
      → PcOk less hash blank m g i p' t'
      → Local present t present t' e
      → Outcome less hash blank i m g present t (m, p', e)
  no_store p' t t' e own local =
      quiet m.nodes.val m.nodes.length m.size p' t t' e inv.size_ok own local

  first_of-IsSentinel :
      (b got n : ℕ)
      → IsSentinel less hash blank m g got b
      → (o : Option ℕ) → m.buckets b ≡ o
      → first_of o got ≡ some n
      → IsSentinel less hash blank m g n b
  first_of-IsSentinel b got n ok none at e =
      subst (λ a. IsSentinel less hash blank m g a b) (some_inj e) ok
  first_of-IsSentinel b got n ok (some a) at e = inv.sentinels b n (at ∙ e)

  -- `initBucket` stores the sentinel that it found or made, unless there is one.
  pub bucket-Outcome :
      (b got : ℕ) (p' : Pc K V) (t : Status (key_set V less))
      → IsSentinel less hash blank m g got b
      → (let m' = record m { buckets = update m.buckets b (first_of (m.buckets b) got) } in
          ((n : ℕ) → m'.buckets b ≡ some n → PcOk less hash blank m' g i p' t)
          → Outcome less hash blank i m g present t (m', p', tau))
  bucket-Outcome b got p' t ok own =
      let filled : (n : ℕ) × (first_of (m.buckets b) got ≡ some n) =
        elim (Option-cases (m.buckets b)) [
          | inl nil ↦ (got, ap (λ (o : Option ℕ). first_of o got) nil)
          | inr (n, e) ↦ (n, ap (λ (o : Option ℕ). first_of o got) e)
        ] in
      let bucket_keeps : (c n : ℕ)
          → m.buckets c ≡ some n
          → update m.buckets b (first_of (m.buckets b) got) c ≡ some n =
        λ c n e. elim (ℕ_discrete b c) [
          | yes here ↦
              ap (update m.buckets b (first_of (m.buckets b) got)) (sym here)
              ∙ update_self m.buckets b (first_of (m.buckets b) got)
              ∙ ap (λ (o : Option ℕ). first_of o got) (ap m.buckets here ∙ e)
          | no off ↦ update_ne m.buckets (first_of (m.buckets b) got) off ∙ e
        ] in
      outcome (record m { buckets = update m.buckets b (first_of (m.buckets b) got) }) g present t t
        p' tau
        (record {
          list = inv.list;
          are_elements = inv.are_elements;
          well = inv.well;
          head_key = inv.head_key;
          head_bucket = bucket_keeps 0 0 inv.head_bucket;
          sentinels = λ c n e. elim (ℕ_discrete b c) [
            | yes here ↦
                let at : first_of (m.buckets b) got ≡ some n =
                  sym (update_self m.buckets b (first_of (m.buckets b) got))
                  ∙ ap (update m.buckets b (first_of (m.buckets b) got)) here
                  ∙ e in
                subst (IsSentinel less hash blank m g n) here
                  (first_of-IsSentinel b got n ok (m.buckets b) refl at)
            | no off ↦
                inv.sentinels c n (sym (update_ne m.buckets (first_of (m.buckets b) got) off) ∙ e)
          ];
          size_ok = inv.size_ok;
        })
        (record {
          keeps =
              quiet-Keeps (so_less-IsStrictOrder order) i m.nodes g.past g.keys inv.list m.nodes.val
                m.nodes.length;
          even_stays = λ x even h. h;
          bucket_stays = bucket_keeps;
        })
        (own filled.0 (update_self m.buckets b (first_of (m.buckets b) got) ∙ filled.1))
        (stays refl refl refl)

  -- A change of the nodes that gives the calls nothing to see.
  pub nodes-Outcome :
      (nodes' : Nodes (SoKey K) V) (g' : Known K) (present' : K → Bool)
      (t t' : Status (key_set V less)) (p' : Pc K V)
      → Inv (so_less less) nodes' g'.past g'.keys
      → Keeps (so_less less) m.nodes g.past i nodes' g'.past g'.keys
      → ((x : SoKey K) → x.so_key % 2 ≡ 0 → g.keys x ≡ true → g'.keys x ≡ true)
      → present' ≡ elements hash g'.keys
      → ((a : ℕ) → g'.past.linked a ≡ true → (g.past.linked a ≡ true) ⊎ IsWell blank (nodes'.key a))
      → (let m' = record m { nodes = nodes' } in
          (SplitInv less hash blank m' g' present'
            → Leaves less hash blank m g i m' g'
            → PcOk less hash blank m' g' i p' t')
          → Local present t present' t' tau
          → Outcome less hash blank i m g present t (m', p', tau))
  nodes-Outcome nodes' g' present' t t' p' list' keeps even are well own local =
      let leaves : Leaves less hash blank m g i (record m { nodes = nodes' }) g' = record {
        keeps = keeps;
        even_stays = even;
        bucket_stays = λ b n e. e;
      } in
      let inv' =
        SplitInv-stays order hash blank i m g present inv (record m { nodes = nodes' }) g' list'
          leaves present' are well (λ b. refl) refl in
      outcome (record m { nodes = nodes' }) g' present' t t' p' tau inv' leaves (own inv' leaves)
        local

  -- A node is made.
  pub make-Outcome :
      (x : SoKey K) (v : V) (p' : Pc K V) (t t' : Status (key_set V less))
      (e : Event (key_set V less))
      → (let m' = make_node less hash blank m x v in
          let g' = record g {
            past = makes (so_less-IsStrictOrder order) i m.nodes g.past g.keys inv.list x v 1;
          } in
          (SplitInv less hash blank m' g' present
            → Leaves less hash blank m g i m' g'
            → Own less hash blank m' g' i m.nodes.alloc x
            → PcOk less hash blank m' g' i p' t')
          → Local present t present t' e
          → Outcome less hash blank i m g present t (m', p', e))
  make-Outcome x v p' t t' e own local =
      let past' = makes (so_less-IsStrictOrder order) i m.nodes g.past g.keys inv.list x v 1 in
      let m' = make_node less hash blank m x v in
      let g' = record g { past = past' } in
      let leaves : Leaves less hash blank m g i m' g' = record {
        keeps = made-Keeps (so_less-IsStrictOrder order) i m.nodes g.past g.keys inv.list x v 1;
        even_stays = λ y even h. h;
        bucket_stays = λ b n h. h;
      } in
      let inv' =
        SplitInv-stays order hash blank i m g present inv m' g'
          (made-Inv (so_less-IsStrictOrder order) i m.nodes g.past g.keys inv.list x v 1) leaves
          present inv.are_elements (λ a h. inl h) (λ b. refl) refl in
      let free = inv.list.fresh m.nodes.alloc (omega arith) in
      outcome m' g' present t t' p' e inv' leaves
        (own inv' leaves (
          omega arith,
          free,
          update_self g.past.owner m.nodes.alloc i,
          update_self m.nodes.marked m.nodes.alloc false,
          update_self m.nodes.key m.nodes.alloc x,
        ))
        local
