-- ===== src/Lf/List/Reads.antt =====
-- lf/list.go: what a goroutine learns as it goes along the list.
use mathlib.Core.Path.{subst, fun_ext}
use lockfree.Base.{
  ℕ, ◌≡◌, ◌≢◌, ◌⊎◌, inl, inr, refl, sym, ap, ◌∙◌, Option, none, some, Bool, Bool-cases, true, false,
  arith, if◌then◌else◌, ==_iff, ◌||◌,
}
use lockfree.Base.Less.{Less, IsStrictOrder}
use lockfree.Linear.{tau}
use lockfree.Linear.Spec.{Status, seen, Waits}
use lockfree.Linear.Simulate.{Local, stays, observes}
use lockfree.Lf.List.{ListOp, set_op, get_op, del_op, key_of, key_set, keys_apply_op}
use lockfree.Lf.List.Memory.{Nodes, key_less, key_equal, is_link, same_ref}
use lockfree.Lf.List.Order.{Same, IsNormal}
use lockfree.Lf.List.Inv.{Past, Live, Inv, Tracks, StartOk, SearchOk, IsEqual, VerOk, Keeps}
use lockfree.Lf.List.Stable.{keys_congr, del_absent, Sought-stays}
use lockfree.Lf.List.Mark.{equal-Same}
use lockfree.Lf.List.Sought.{Live-Sought, Sought-step, Sought-behind}

same_ref-eq : (a b : Option ℕ) → same_ref a b ≡ true → a ≡ b
same_ref-eq none none e = refl
same_ref-eq (some a) (some b) e = ap (λ (x : ℕ). some x) ((==_iff a b).0 e)
same_ref-eq none (some b) e = cc
same_ref-eq (some a) none e = cc

-- What the first half of a compare-and-swap finds.
pub is_link-VerOk :
    {K V : Type 0} (less : Less K) (m : Nodes K V) (g : Past) (a : ℕ) (ref : Option ℕ)
    → is_link m a ref ≡ true
    → VerOk less m g a ref (m.ver a)
is_link-VerOk less m g a ref e =
    (omega arith, λ z. (same_ref-eq (m.next a) ref (ground arith), ground arith))

-- A call that looks for its key.
abbrev pub Looks : {K V : Type 0} → ListOp K V → Type 0
Looks (set_op k v) = ⊥
Looks op = Unit

module _ {K V : Type 0} {less : Less K} (order : IsStrictOrder less) (m : Nodes K V) (g : Past)
    (keys : K → Bool) (inv : Inv less m g keys) where
  pub Tracks-Waits :
      (t : Status (key_set V less)) (op : ListOp K V) (a : ℕ)
      → Tracks less m g t op a
      → Waits (key_set V less) t op
  Tracks-Waits t op a (inl e) = subst (λ u. Waits (key_set V less) u op) (sym e) refl
  Tracks-Waits t op a (inr rest) = rest.0

  pub SearchOk-StartOk :
      (op : ListOp K V) (t : Status (key_set V less)) (a : ℕ)
      → SearchOk less m g op t a
      → StartOk less m g op t
  SearchOk-StartOk (set_op k v) t a e = e
  SearchOk-StartOk (get_op k) t a e = e
  SearchOk-StartOk (del_op k) t a e = Tracks-Waits t (del_op k) a e

  Looks-absent :
      (op : ListOp K V)
      → Looks op
      → keys (key_of op) ≡ false
      → keys_apply_op V less op keys ≡ (keys, false)
  unfolding keys_apply_op
  Looks-absent (set_op k v) l e = absurd l
  Looks-absent (get_op k) l e = λ i. (keys, e i)
  Looks-absent (del_op k) l e = del_absent order m g keys inv k e

  -- `Get(k)` at a node with the key, and `Set(k, v)`.
  pub get-present : (k : K) → keys k ≡ true → keys_apply_op V less (get_op k) keys ≡ (keys, true)
  unfolding keys_apply_op
  get-present k e = λ i. (keys, e i)

  pub set-present :
      (k : K) (v : V) → keys k ≡ true → keys_apply_op V less (set_op k v) keys ≡ (keys, true)
  unfolding keys_apply_op
  set-present k v e =
      let same : (λ (j : K). if less j k || less k j then keys j else true) ≡ keys = fun_ext (λ j.
        elim (Bool-cases (less j k || less k j)) [
          | inl differ ↦ rw differ refl
          | inr alike ↦
              let also = keys_congr order m g keys inv k j (ground arith, ground arith) e in
              rw (alike, also) refl
        ]) in
      λ i. (same i, true)

  pub equal_present : (a : ℕ) (k : K) → m.marked a ≡ false → IsEqual less m g a k → keys k ≡ true
  equal_present a k mk (h, e, f) =
      let (normal, same) = equal-Same less m k a e f in inv.present a k (h, mk) normal same

  -- At the node behind the head the key is found absent, or it can be reached.
  pub first-Tracks :
      (op : ListOp K V) (t : Status (key_set V less)) (b : ℕ)
      → Looks op
      → Waits (key_set V less) t op
      → m.next 0 ≡ some b
      → (t' : Status (key_set V less)) × Tracks less m g t' op b × Local keys t keys t' tau
  first-Tracks op t b l w e = elim (Bool-cases (keys (key_of op))) [
    | inl has ↦
        let way = Live-Sought order m g keys inv (key_of op) 0 inv.first_live refl has in
        let on =
          Sought-step order m g keys inv (key_of op) 0 b e
            (λ c live normal same z. normal.0 (sym z)) way in
        (t, inr (w, on), stays refl refl refl)
    | inr gone ↦
        (seen op false, inl refl, observes op false refl w (Looks-absent op l gone) refl refl)
  ]

  -- A node that is marked or before the key is not at the key.
  pub not_at :
      (x : K) (a : ℕ)
      → (m.marked a ≡ true) ⊎ (key_less less m a x ≡ true)
      → (c : ℕ) → Live less m g c
      → IsNormal less m c
      → Same less m (m.key c) x
      → a ≢ c
  not_at x a (inl mk) c live normal same e = let z = sym mk ∙ ap m.marked e ∙ live.1 in cc
  not_at x a (inr before) c live (c0, c1) (p, q) e =
      let less_c : key_less less m c x ≡ true =
        ap (λ (y : ℕ). key_less less m y x) (sym e) ∙ before in
      ground arith

  -- One node on, from a node that is marked or before the key.
  pub Tracks-step :
      (t : Status (key_set V less)) (op : ListOp K V) (a b : ℕ)
      → m.next a ≡ some b
      → (m.marked a ≡ true) ⊎ (key_less less m a (key_of op) ≡ true)
      → Tracks less m g t op a
      → Tracks less m g t op b
  Tracks-step t op a b e why (inl absent) = inl absent
  Tracks-step t op a b e why (inr (w, way)) =
      inr (w, Sought-step order m g keys inv (key_of op) a b e (not_at (key_of op) a why) way)

  -- At a node behind the key, the key has been absent.
  pub Tracks-absent :
      (t : Status (key_set V less)) (op : ListOp K V) (a : ℕ)
      → g.linked a ≡ true
      → key_less less m a (key_of op) ≡ false
      → key_equal less m a (key_of op) ≡ false
      → Tracks less m g t op a
      → t ≡ seen op false
  Tracks-absent t op a h e f (inl absent) = absent
  Tracks-absent t op a h e f (inr (w, way)) =
      absurd (Sought-behind order m g keys inv (key_of op) a h e f way)

  -- An access that leaves the keys as they are leaves what a call has learnt.
  pub Tracks-still :
      (i : ℕ) (m' : Nodes K V) (g' : Past)
      → Inv less m' g' keys
      → Keeps less m g i m' g' keys
      → (t : Status (key_set V less)) (op : ListOp K V) (a : ℕ) → g.linked a ≡ true
      → Tracks less m g t op a
      → Tracks less m' g' t op a
  Tracks-still i m' g' inv' x t op a h (inl absent) = inl absent
  Tracks-still i m' g' inv' x t op a h (inr (w, way)) =
      let (c, live, normal, same, path) = way in
      let still = inv.present c (key_of op) live normal same in
      inr (w, Sought-stays order inv m' g' keys inv' x (key_of op) a h still way)

  pub SearchOk-still :
      (i : ℕ) (m' : Nodes K V) (g' : Past)
      → Inv less m' g' keys
      → Keeps less m g i m' g' keys
      → (op : ListOp K V) (t : Status (key_set V less)) (a : ℕ) → g.linked a ≡ true
      → SearchOk less m g op t a
      → SearchOk less m' g' op t a
  SearchOk-still i m' g' inv' x (set_op k v) t a h e = e
  SearchOk-still i m' g' inv' x (get_op k) t a h e = e
  SearchOk-still i m' g' inv' x (del_op k) t a h e = Tracks-still i m' g' inv' x t (del_op k) a h e

  pub SearchOk-step :
      (op : ListOp K V) (t : Status (key_set V less)) (a b : ℕ)
      → m.next a ≡ some b
      → (m.marked a ≡ true) ⊎ (key_less less m a (key_of op) ≡ true)
      → SearchOk less m g op t a
      → SearchOk less m g op t b
  SearchOk-step (set_op k v) t a b e why ok = ok
  SearchOk-step (get_op k) t a b e why ok = ok
  SearchOk-step (del_op k) t a b e why ok = Tracks-step t (del_op k) a b e why ok

  -- Only the tail has no successor.
  pub next-some :
      (a : ℕ) → g.linked a ≡ true → a ≢ 1 → (b : ℕ) × (m.next a ≡ some b) × (g.linked b ≡ true)
  next-some a h ne = let (b, e, h', lt) = inv.next_in a h ne in (b, e, h')

  pub marked-some :
      (a : ℕ)
      → g.linked a ≡ true
      → m.marked a ≡ true
      → (b : ℕ) × (m.next a ≡ some b) × (g.linked b ≡ true)
  marked-some a h mk = next-some a h (λ e. let z = sym mk ∙ ap m.marked e ∙ inv.last_live.1 in cc)
