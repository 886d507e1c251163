-- ===== src/Lf/SplitHashMap/Links.antt =====
-- lf/splithashmap.go: a node gets its link, is linked, marked, or taken out.
use mathlib.Core.Path.{subst}
use native.Mathlib.Decide.{ℕ_discrete}
use lockfree.Base.{
  ℕ, ◌≡◌, inl, inr, refl, sym, ap, ◌∙◌, Option, some, Bool, true, false, arith, ◌||◌, if◌then◌else◌,
  update, update_self, update_ne,
}
use lockfree.Base.Less.{Less, IsStrictOrder}
use lockfree.Linear.{tau}
use lockfree.Linear.Spec.{Status, done, Waits}
use lockfree.Linear.Simulate.{Local, stays, commits}
use lockfree.Lf.List.{del_op, key_set, keys_apply_op}
use lockfree.Lf.List.Memory.{store_next}
use lockfree.Lf.List.Order.{Same, IsNormal}
use lockfree.Lf.List.Inv.{IsLess, IsBehind, IsGone}
use lockfree.Lf.List.Sought.{prepared, prepared-Inv, prepared-Keeps}
use lockfree.Lf.List.Insert.{linked_to, insert-Inv, insert-Keeps}
use lockfree.Lf.List.Mark.{marks, mark-Inv, mark-Keeps}
use lockfree.Lf.List.Unlink.{unlinks, unlink-Inv, unlink-Keeps}
use lockfree.Lf.SplitHashMap.Memory.{SoKey, Split, regular, so_less}
use lockfree.Lf.SplitHashMap.Keys.{
  IsWell, elements, so_less-IsStrictOrder, del-elements, parity_apart, regular-odd,
}
use lockfree.Lf.SplitHashMap.Access.{Pc}
use lockfree.Lf.SplitHashMap.Inv.{Known, SplitInv, Own, PcOk, Leaves}
use lockfree.Lf.SplitHashMap.Stores.{Outcome, nodes-Outcome}

module _ {K V : Type 0} {less : Less K} (order : IsStrictOrder less) (hash : K → ℕ)
    (agree : (x y : K) → less x y ≡ false → less y x ≡ false → hash x ≡ hash y) (blank : K) (i : ℕ)
    (m : Split K V) (g : Known K) (present : K → Bool)
    (inv : SplitInv less hash blank m g present) where
  still_unmarked : (n a : ℕ) → m.nodes.marked a ≡ false → update m.nodes.marked n false a ≡ false
  still_unmarked n a e = ground arith

  -- The link of a node that is not linked yet.
  pub prepare-Outcome :
      (n curr : ℕ) (p' : Pc K V) (t : Status (key_set V less))
      → g.past.linked n ≡ false
      → g.past.owner n ≡ i
      → (let m' = record m { nodes = store_next m.nodes n (some curr) false } in
          (SplitInv less hash blank m' g present
            → Leaves less hash blank m g i m' g
            → ((a : ℕ) → m.nodes.marked a ≡ false → m'.nodes.marked a ≡ false)
            → m'.nodes.next n ≡ some curr
            → PcOk less hash blank m' g i p' t)
          → Outcome less hash blank i m g present t (m', p', tau))
  unfolding store_next
  prepare-Outcome n curr p' t free owned own =
      nodes-Outcome order hash agree blank i m g present inv
        (prepared (so_less-IsStrictOrder order) m.nodes g.past g.keys inv.list i n curr free owned)
        g present t t p'
        (prepared-Inv (so_less-IsStrictOrder order) m.nodes g.past g.keys inv.list i n curr free
          owned)
        (prepared-Keeps (so_less-IsStrictOrder order) m.nodes g.past g.keys inv.list i n curr free
          owned)
        (λ x even h. h) inv.are_elements (λ a h. inl h)
        (λ inv' leaves. own inv' leaves (still_unmarked n) (update_self m.nodes.next n (some curr)))
        (stays refl refl refl)

  pub unlink-Outcome :
      (pred curr succ : ℕ) (p' : Pc K V) (t : Status (key_set V less))
      → g.past.linked pred ≡ true
      → IsGone (so_less less) m.nodes g.past curr (some succ)
      → m.nodes.next pred ≡ some curr
      → m.nodes.marked pred ≡ false
      → (let m' = record m { nodes = store_next m.nodes pred (some succ) false } in
          (SplitInv less hash blank m' g present
            → Leaves less hash blank m g i m' g
            → ((a : ℕ) → m.nodes.marked a ≡ false → m'.nodes.marked a ≡ false)
            → PcOk less hash blank m' g i p' t)
          → Outcome less hash blank i m g present t (m', p', tau))
  unfolding store_next
  unlink-Outcome pred curr succ p' t linked gone at_pred unmarked own =
      nodes-Outcome order hash agree blank i m g present inv
        (unlinks (so_less-IsStrictOrder order) i m.nodes g.past g.keys inv.list pred curr succ
          linked gone at_pred unmarked)
        g present t t p'
        (unlink-Inv (so_less-IsStrictOrder order) i m.nodes g.past g.keys inv.list pred curr succ
          linked gone at_pred unmarked)
        (unlink-Keeps (so_less-IsStrictOrder order) i m.nodes g.past g.keys inv.list pred curr succ
          linked gone at_pred unmarked)
        (λ x even h. h) inv.are_elements (λ a h. inl h)
        (λ inv' leaves. own inv' leaves (still_unmarked pred)) (stays refl refl refl)

  -- `Del` marks its node.
  pub mark-Outcome :
      (k : K) (curr : ℕ) (succ : Option ℕ) (p' : Pc K V) (t : Status (key_set V less))
      → g.past.linked curr ≡ true
      → IsNormal (so_less less) m.nodes curr
      → Same (so_less less) m.nodes (m.nodes.key curr) (regular hash k)
      → m.nodes.next curr ≡ succ
      → m.nodes.marked curr ≡ false
      → Waits (key_set V less) t (del_op k)
      → (let m' = record m { nodes = store_next m.nodes curr succ true } in
          let g' = record g {
            keys = λ x.
                if so_less less x (regular hash k) || so_less less (regular hash k) x
                then g.keys x
                else false;
          } in
          (Leaves less hash blank m g i m' g'
            → IsGone (so_less less) m'.nodes g'.past curr succ
            → PcOk less hash blank m' g' i p' (done true))
          → Outcome less hash blank i m g present t (m', p', tau))
  unfolding store_next
  mark-Outcome k curr succ p' t linked normal at_key at_curr unmarked waits own =
      let here = inv.list.present curr (regular hash k) (linked, unmarked) normal at_key in
      let keys' : SoKey K → Bool = λ x.
        if so_less less x (regular hash k) || so_less less (regular hash k) x
        then g.keys x
        else false in
      nodes-Outcome order hash agree blank i m g present inv
        (marks (so_less-IsStrictOrder order) i m.nodes g.past g.keys inv.list (regular hash k) curr
          succ linked normal at_key at_curr unmarked)
        (record g { keys = keys' }) (elements hash keys') t (done true) p'
        (mark-Inv (so_less-IsStrictOrder order) i m.nodes g.past g.keys inv.list (regular hash k)
          curr succ linked normal at_key at_curr unmarked)
        (mark-Keeps (so_less-IsStrictOrder order) i m.nodes g.past g.keys inv.list (regular hash k)
          curr succ linked normal at_key at_curr unmarked)
        (λ x even h.
          ap (λ (b : Bool). if b then g.keys x else false)
            (parity_apart less x (regular hash k) even (regular-odd hash k)).0
          ∙ h)
        refl (λ a h. inl h)
        (λ inv' leaves.
          own leaves
            (linked, update_self m.nodes.marked curr true, update_self m.nodes.next curr succ))
        (commits (del_op k) true refl waits
          (ap (λ (x : K → Bool). keys_apply_op V less (del_op k) x) inv.are_elements
            ∙ del-elements V less hash agree k g.keys
            ∙ (λ j. (elements hash keys', here j)))
          refl)

  -- `listInsert` links a node between `pred` and `curr`.
  module _ (x : SoKey K) (pred curr n : ℕ) (is_less : IsLess (so_less less) m.nodes g.past pred x)
      (is_behind : IsBehind (so_less less) m.nodes g.past curr x)
      (own_n : Own less hash blank m g i n x) (n_next : m.nodes.next n ≡ some curr)
      (at_pred : m.nodes.next pred ≡ some curr) (unmarked : m.nodes.marked pred ≡ false) where
    abbrev pub plus : Known K
    plus = record {
      past = record g.past { linked = update g.past.linked n true };
      keys = λ y. if so_less less y x || so_less less x y then g.keys y else true;
    }

    still : (y : SoKey K) → g.keys y ≡ true → plus.keys y ≡ true
    still y h = ground arith

    pub insert-Outcome :
        (p' : Pc K V) (t t' : Status (key_set V less)) (present' : K → Bool)
        → IsWell blank x
        → present' ≡ elements hash plus.keys
        → (let m' = record m { nodes = store_next m.nodes pred (some n) false } in
            (SplitInv less hash blank m' plus present'
              → Leaves less hash blank m g i m' plus
              → ((a : ℕ) → m.nodes.marked a ≡ false → m'.nodes.marked a ≡ false)
              → PcOk less hash blank m' plus i p' t')
            → Local present t present' t' tau
            → Outcome less hash blank i m g present t (m', p', tau))
    unfolding store_next
    insert-Outcome p' t t' present' well are own local =
        let (lt, free, owned, mk, key) = own_n in
        nodes-Outcome order hash agree blank i m g present inv
          (linked_to (so_less-IsStrictOrder order) i m.nodes g.past g.keys inv.list x pred curr n
            is_less is_behind lt free owned n_next mk key at_pred unmarked)
          plus present' t t' p'
          (insert-Inv (so_less-IsStrictOrder order) i m.nodes g.past g.keys inv.list x pred curr n
            is_less is_behind lt free owned n_next mk key at_pred unmarked)
          (insert-Keeps (so_less-IsStrictOrder order) i m.nodes g.past g.keys inv.list x pred curr n
            is_less is_behind lt free owned n_next mk key at_pred unmarked)
          (λ y even h. still y h) are
          (λ a h. elim (ℕ_discrete n a) [
            | yes here ↦ inr (
                subst (λ b. IsWell blank (m.nodes.key b)) here
                  (subst (IsWell blank) (sym key) well))
            | no off ↦ inl (sym (update_ne g.past.linked true off) ∙ h)
          ])
          (λ inv' leaves. own inv' leaves (still_unmarked pred)) local
