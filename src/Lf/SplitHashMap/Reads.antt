-- ===== src/Lf/SplitHashMap/Reads.antt =====
-- lf/splithashmap.go: what a goroutine learns on its way.
use mathlib.Core.Path.{subst}
use lockfree.Base.{ℕ, ◌≡◌, inl, inr, refl, sym, ap, ◌∙◌, Bool, Bool-cases, true, false}
use lockfree.Base.Less.{Less, IsStrictOrder}
use lockfree.Linear.{tau}
use lockfree.Linear.Spec.{Status, seen, Waits, Watch}
use lockfree.Linear.Simulate.{Local, stays, observes}
use lockfree.Lf.List.{ListOp, set_op, get_op, del_op, key_of, key_set, keys_apply_op}
use lockfree.Lf.List.Memory.{Nodes}
use lockfree.Lf.List.Inv.{Past, Inv}
use lockfree.Lf.List.Stable.{del_absent}
use lockfree.Lf.List.Reads.{Looks, set-present}
use lockfree.Lf.List.Sought.{Live-Sought}
use lockfree.Lf.SplitHashMap.Memory.{SoKey, Split, regular, so_less}
use lockfree.Lf.SplitHashMap.Keys.{so_less-IsStrictOrder, elements, set-elements, del-elements}
use lockfree.Lf.SplitHashMap.Inv.{Known, SplitInv, Tracks, StartOk}

module _ {K V : Type 0} {less : Less K} (order : IsStrictOrder less) (hash : K → ℕ)
    (agree : (x y : K) → less x y ≡ false → less y x ≡ false → hash x ≡ hash y) where
  module _ (m : Nodes (SoKey K) V) (g : Past) (keys : SoKey K → Bool)
      (inv : Inv (so_less less) m g keys) where
    -- An operation that finds its key absent, or present.
    pub elements-absent :
        (op : ListOp K V)
        → Looks op
        → keys (regular hash (key_of op)) ≡ false
        → keys_apply_op V less op (elements hash keys) ≡ (elements hash keys, false)
    unfolding keys_apply_op
    elements-absent (set_op k v) l e = absurd l
    elements-absent (get_op k) l e = λ i. (elements hash keys, e i)
    elements-absent (del_op k) l e =
        let same = del_absent (so_less-IsStrictOrder order) m g keys inv (regular hash k) e in
        del-elements V less hash agree k keys ∙ (λ i. (elements hash (same i).0, (same i).1))

    pub elements-get :
        (k : K)
        → keys (regular hash k) ≡ true
        → keys_apply_op V less (get_op k) (elements hash keys) ≡ (elements hash keys, true)
    unfolding keys_apply_op
    elements-get k e = λ i. (elements hash keys, e i)

    pub elements-set :
        (k : K) (v : V)
        → keys (regular hash k) ≡ true
        → keys_apply_op V less (set_op k v) (elements hash keys) ≡ (elements hash keys, true)
    unfolding keys_apply_op
    elements-set k v e =
        let same = set-present (so_less-IsStrictOrder order) m g keys inv (regular hash k) v e in
        set-elements V less hash agree k v keys ∙ (λ i. (elements hash (same i).0, (same i).1))

  module _ (blank : K) (m : Split K V) (g : Known K) (present : K → Bool)
      (inv : SplitInv less hash blank m g present) where
    pub apply_absent :
        (op : ListOp K V)
        → Looks op
        → g.keys (regular hash (key_of op)) ≡ false
        → keys_apply_op V less op present ≡ (present, false)
    apply_absent op l e =
        subst (λ x. keys_apply_op V less op x ≡ (x, false)) (sym inv.are_elements)
          (elements-absent m.nodes g.past g.keys inv.list op l e)

    pub apply_get :
        (k : K)
        → g.keys (regular hash k) ≡ true
        → keys_apply_op V less (get_op k) present ≡ (present, true)
    apply_get k e =
        subst (λ x. keys_apply_op V less (get_op k) x ≡ (x, true)) (sym inv.are_elements)
          (elements-get m.nodes g.past g.keys inv.list k e)

    pub apply_set :
        (k : K) (v : V)
        → g.keys (regular hash k) ≡ true
        → keys_apply_op V less (set_op k v) present ≡ (present, true)
    apply_set k v e =
        subst (λ x. keys_apply_op V less (set_op k v) x ≡ (x, true)) (sym inv.are_elements)
          (elements-set m.nodes g.past g.keys inv.list k v e)

    -- A call that looks for its key sees it absent as soon as it is.
    pub see_absent :
        (op : ListOp K V) (t : Status (key_set V less))
        → Looks op
        → g.keys (regular hash (key_of op)) ≡ false
        → Waits (key_set V less) t op
        → Watch (key_set V less) present t (seen op false)
    see_absent op t l absent w =
        let same = apply_absent op l absent in
        inr (
          op,
          w,
          ap (λ (y : (K → Bool) × Bool). y.0) same,
          ap (λ (y : (K → Bool) × Bool). seen op y.1) (sym same),
        )

    -- From the sentinel of its bucket the key is found absent, or it can be reached.
    pub start-Tracks :
        (op : ListOp K V) (t : Status (key_set V less)) (a : ℕ)
        → Looks op
        → Waits (key_set V less) t op
        → StartOk less hash blank m g a (regular hash (key_of op))
        → (t' : Status (key_set V less)) × Tracks less hash blank m g t' op a
          × Local present t present t' tau
    start-Tracks op t a l w ((live, root), before) =
        elim (Bool-cases (g.keys (regular hash (key_of op)))) [
          | inl has ↦
              let way =
                Live-Sought (so_less-IsStrictOrder order) m.nodes g.past g.keys inv.list
                  (regular hash (key_of op)) a live before has in
              (t, inr (w, way), stays refl refl refl)
          | inr gone ↦
              (seen op false, inl refl, observes op false refl w (apply_absent op l gone) refl refl)
        ]

  pub Tracks-Waits :
      (blank : K) (m : Split K V) (g : Known K) (t : Status (key_set V less)) (op : ListOp K V)
      (a : ℕ)
      → Tracks less hash blank m g t op a
      → Waits (key_set V less) t op
  Tracks-Waits blank m g t op a (inl e) = subst (λ u. Waits (key_set V less) u op) (sym e) refl
  Tracks-Waits blank m g t op a (inr (w, way)) = w
