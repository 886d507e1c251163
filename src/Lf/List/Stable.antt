-- ===== src/Lf/List/Stable.antt =====
-- lf/list.go: what a goroutine has learnt survives the accesses of the others.
use mathlib.Core.Path.{subst, fun_ext}
use native.Mathlib.Decide.{dec_lt}
use lockfree.Base.{
  ℕ, ◌<◌, ◌≡◌, ◌≢◌, inl, inr, refl, sym, ap, ◌∙◌, Option, Bool, true, false, Bool-cases, arith, not,
  ◌&&◌, ◌||◌, if◌then◌else◌,
}
use lockfree.Base.Less.{Less, IsStrictOrder}
use lockfree.Linear.Spec.{Status, seen, Waits, Watch}
use lockfree.Lf.List.{ListOp, set_op, get_op, del_op, key_set, keys_apply_op, key_of}
use lockfree.Lf.List.Memory.{Nodes, key_less, key_equal, is_first, is_last}
use lockfree.Lf.List.Order.{Same}
use lockfree.Lf.List.Inv.{
  Past, Inv, Sought, Tracks, SearchOk, IsLess, IsEqual, IsBehind, IsGone, VerOk, IsPrivate, Keeps,
}

module _ {K V : Type 0} {less : Less K} (order : IsStrictOrder less) where
  pub Same-trans : (m : Nodes K V) (x y z : K) → Same less m x y → Same less m y z → Same less m x z
  Same-trans m x y z (p, q) (r, s) = (order.cotrans x y z p r, order.cotrans z y x s q)

  -- Keys that are not told apart are present together.
  pub keys_congr :
      (m : Nodes K V) (g : Past) (keys : K → Bool)
      → Inv less m g keys
      → (x y : K) → Same less m x y
      → keys x ≡ true
      → keys y ≡ true
  keys_congr m g keys inv x y same h =
      let (a, live, normal, at_x) = inv.held x h in
      inv.present a y live normal (Same-trans m (m.key a) x y at_x same)

  -- To delete a key that is absent changes nothing.
  pub del_absent :
      (m : Nodes K V) (g : Past) (keys : K → Bool)
      → Inv less m g keys
      → (k : K) → keys k ≡ false
      → keys_apply_op V less (del_op k) keys ≡ (keys, false)
  unfolding keys_apply_op
  del_absent m g keys inv k absent =
      let same : (λ (j : K). if less j k || less k j then keys j else false) ≡ keys = fun_ext (λ j.
        elim (Bool-cases (keys j)) [
          | inl here ↦ ground (arith, keys_congr m g keys inv j k)
          | inr gone ↦ ground arith
        ]) in
      λ i. (same i, absent i)

  pub linked-lt :
      {m : Nodes K V} {g : Past} {keys : K → Bool}
      → Inv less m g keys
      → (a : ℕ) → g.linked a ≡ true
      → a < m.alloc
  linked-lt {m = m} {g = g} inv a h = elim (dec_lt a m.alloc) [
    | yes lt ↦ lt
    | no ge ↦ let free = inv.fresh a (omega arith) in cc
  ]

  module _ {i : ℕ} {m : Nodes K V} {g : Past} {keys : K → Bool} (inv : Inv less m g keys) where
    module _ (m' : Nodes K V) (g' : Past) (keys' : K → Bool) (inv' : Inv less m' g' keys')
        (x : Keeps less m g i m' g' keys') where
      same_key : (a : ℕ) → g.linked a ≡ true → m'.key a ≡ m.key a
      same_key a h = x.key_stays a (linked-lt inv a h)

      pub IsLess-stays : (a : ℕ) (y : K) → IsLess less m g a y → IsLess less m' g' a y
      IsLess-stays a y (h, e) = (
        x.linked_stays a h,
        ap (λ (k : K). if is_first a then true else if is_last a then false else less k y)
              (same_key a h)
            ∙ e,
      )

      same_equal :
          (a : ℕ) (y : K) → g.linked a ≡ true → key_equal less m' a y ≡ key_equal less m a y
      same_equal a y h =
          ap
            (λ (k : K).
              if is_first a
              then false
              else if is_last a
              then false
              else not (less k y) && not (less y k))
            (same_key a h)

      same_less : (a : ℕ) (y : K) → g.linked a ≡ true → key_less less m' a y ≡ key_less less m a y
      same_less a y h =
          ap (λ (k : K). if is_first a then true else if is_last a then false else less k y)
            (same_key a h)

      pub IsEqual-stays : (a : ℕ) (y : K) → IsEqual less m g a y → IsEqual less m' g' a y
      IsEqual-stays a y (h, e, f) = (x.linked_stays a h, same_less a y h ∙ e, same_equal a y h ∙ f)

      pub IsBehind-stays : (a : ℕ) (y : K) → IsBehind less m g a y → IsBehind less m' g' a y
      IsBehind-stays a y (h, e, f) = (x.linked_stays a h, same_less a y h ∙ e, same_equal a y h ∙ f)

      pub IsGone-stays :
          (a : ℕ) (succ : Option ℕ) → IsGone less m g a succ → IsGone less m' g' a succ
      IsGone-stays a succ (h, mk, e) =
          let (mk', same) = x.gone_stays a h mk in (x.linked_stays a h, mk', same ∙ e)

      pub VerOk-stays :
          (a : ℕ) (ref : Option ℕ) (v : ℕ)
          → g.linked a ≡ true
          → VerOk less m g a ref v
          → VerOk less m' g' a ref v
      VerOk-stays a ref v h (le, ok) = elim (x.ver_stays a h) [
        | inl (same, same_next, same_mark) ↦
            (omega arith, λ e. let (n, k) = ok (sym same ∙ e) in (same_next ∙ n, same_mark ∙ k))
        | inr further ↦ (omega arith, λ e. absurd (omega arith))
      ]

      pub IsPrivate-stays :
          (j n : ℕ) (k : K) (curr : ℕ)
          → j ≢ i
          → IsPrivate less m g j n k curr
          → IsPrivate less m' g' j n k curr
      IsPrivate-stays j n k curr ne (lt, free, own, nx, mk, key) =
          let (free', own', nx', mk') = x.private_stays n lt free (λ e. ne (sym own ∙ e)) in
          let le = x.alloc_le in
          (omega arith, free', own' ∙ own, nx' ∙ nx, mk' ∙ mk, x.key_stays n lt ∙ key)

      -- A reader of the state that waits with `op` sees its key absent as soon as it is.
      abbrev Readable : ListOp K V → Type 0
      Readable (set_op k v) = ⊥
      Readable op = Unit

      see_absent :
          (op : ListOp K V) (t : Status (key_set V less))
          → Readable op
          → keys' (key_of op) ≡ false
          → Waits (key_set V less) t op
          → Watch (key_set V less) keys' t (seen op false)
      unfolding keys_apply_op
      see_absent (set_op k v) t r absent w = absurd r
      see_absent (get_op k) t r absent w =
          inr (get_op k, w, refl, ap (λ (b : Bool). seen (get_op k) b) (sym absent))
      see_absent (del_op k) t r absent w = inr (
        del_op k,
        w,
        ap (λ (y : (K → Bool) × Bool). y.0) (del_absent m' g' keys' inv' k absent),
        ap (λ (b : Bool). seen (del_op k) b) (sym absent),
      )

      pub Sought-stays :
          (y : K) (a : ℕ)
          → g.linked a ≡ true
          → keys' y ≡ true
          → Sought less m g y a
          → Sought less m' g' y a
      Sought-stays y a h still (c, live, normal, same, path) =
          let live' = x.live_stays c y live normal same still in
          (
            c,
            live',
            normal,
            subst (λ k. Same less m' k y) (sym (same_key c live.0)) same,
            x.leads_stays a c h live' path,
          )

      pub Tracks-stays :
          (op : ListOp K V) (t : Status (key_set V less)) (a : ℕ)
          → Readable op
          → g.linked a ≡ true
          → Tracks less m g t op a
          → (u : Status (key_set V less)) × Watch (key_set V less) keys' t u
            × Tracks less m' g' u op a
      Tracks-stays op t a r h (inl e) = (t, inl refl, inl e)
      Tracks-stays op t a r h (inr (e, way)) = elim (Bool-cases (keys' (key_of op))) [
        | inl still ↦ (t, inl refl, inr (e, Sought-stays (key_of op) a h still way))
        | inr gone ↦ (seen op false, see_absent op t r gone e, inl refl)
      ]

      pub SearchOk-stays :
          (op : ListOp K V) (t : Status (key_set V less)) (a : ℕ)
          → g.linked a ≡ true
          → SearchOk less m g op t a
          → (u : Status (key_set V less)) × Watch (key_set V less) keys' t u
            × SearchOk less m' g' op u a
      SearchOk-stays (set_op k v) t a h e = (t, inl refl, e)
      SearchOk-stays (get_op k) t a h e = absurd e
      SearchOk-stays (del_op k) t a h e = Tracks-stays (del_op k) t a tt h e
