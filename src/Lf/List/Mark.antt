-- ===== src/Lf/List/Mark.antt =====
-- lf/list.go: `Del` marks the link of its node.
use mathlib.Core.Path.{subst}
use native.Mathlib.Decide.{ℕ_discrete}
use lockfree.Base.{
  ℕ, ◌+◌, ◌<◌, ◌≡◌, ◌≢◌, inl, inr, refl, sym, ap, ◌∙◌, Option, Bool, Bool-cases, true, false, arith,
  if◌then◌else◌, ◌||◌, update, update_self, update_ne, update_same,
}
use lockfree.Base.Less.{Less, IsStrictOrder}
use lockfree.Linear.{tau}
use lockfree.Linear.Spec.{Status, done, Waits}
use lockfree.Linear.Simulate.{commits}
use lockfree.Lf.List.{del_op, key_set, keys_apply_op, del_value}
use lockfree.Lf.List.Memory.{Nodes, store_next, key_less, key_equal}
use lockfree.Lf.List.Order.{Same, IsNormal, Leads}
use lockfree.Lf.List.Inv.{Past, Live, Inv, Keeps}
use lockfree.Lf.List.Stable.{Same-trans}
use lockfree.Lf.List.Paths.{Live-unique, Outcome, outcome}

module _ {K V : Type 0} (less : Less K) (m : Nodes K V) (k : K) (a : ℕ) where
  -- What `keyEqual` says of a node that is not before the key.
  pub equal-Same :
      key_less less m a k ≡ false
      → key_equal less m a k ≡ true
      → IsNormal less m a × Same less m (m.key a) k
  equal-Same e f = ((λ z. ground arith, λ z. ground arith), (ground arith, ground arith))

module _ {K V : Type 0} {less : Less K} (order : IsStrictOrder less) (i : ℕ) (m : Nodes K V)
    (g : Past) (keys : K → Bool) (inv : Inv less m g keys) (k : K) (curr : ℕ) (succ : Option ℕ)
    (linked : g.linked curr ≡ true) (normal : IsNormal less m curr)
    (at_key : Same less m (m.key curr) k) (at_curr : m.next curr ≡ succ)
    (unmarked : m.marked curr ≡ false) where
  abbrev pub marks : Nodes K V
  marks = record m {
    next = update m.next curr succ;
    marked = update m.marked curr true;
    ver = update m.ver curr (m.ver curr + 1);
  }

  abbrev pub without_key : K → Bool
  without_key = λ j. if less j k || less k j then keys j else false

  same_next : update m.next curr succ ≡ m.next
  same_next = update_same m.next curr at_curr

  next_at : (a : ℕ) → marks.next a ≡ m.next a
  next_at a = ap (λ (f : ℕ → Option ℕ). f a) same_next

  same_Leads : (a b : ℕ) → Leads m.next a b → Leads marks.next a b
  same_Leads a b p = subst (λ f. Leads f a b) (sym same_next) p

  is_Live : (a : ℕ) → curr ≢ a → Live less m g a → Live less marks g a
  is_Live a ne (h, mk) = (h, update_ne m.marked true ne ∙ mk)

  apart : (a : ℕ) → Live less marks g a → curr ≢ a
  apart a (h, mk) e = let z = sym (update_self m.marked curr true) ∙ ap marks.marked e ∙ mk in cc

  was-Live : (a : ℕ) → Live less marks g a → Live less m g a
  was-Live a live = (live.0, sym (update_ne m.marked true (apart a live)) ∙ live.1)

  -- A key that stays is not at the marked node.
  stays_apart : (a : ℕ) (x : K) → Same less m (m.key a) x → without_key x ≡ true → curr ≢ a
  stays_apart a x same still e =
      let same' = subst (λ b. Same less m (m.key b) x) (sym e) same in
      let (p, q) = Same-trans order m x (m.key curr) k (same'.1, same'.0) at_key in ground arith

  pub mark-Inv : Inv less marks g without_key
  mark-Inv = record {
    first_live = is_Live 0 (λ e. normal.0 e) inv.first_live;
    last_live = is_Live 1 (λ e. normal.1 e) inv.last_live;
    last_next = next_at 1 ∙ inv.last_next;
    next_in = λ a h ne. let (b, e, h', lt) = inv.next_in a h ne in (b, next_at a ∙ e, h', lt);
    led = λ a live. same_Leads 0 a (inv.led a (was-Live a live));
    fresh = inv.fresh;
    present = λ a x live normal' same.
        let was = inv.present a x (was-Live a live) normal' same in
        elim (Bool-cases (less x k || less k x)) [
          | inl differ ↦ rw differ was
          | inr alike ↦
              let back : Same less m k x = (ground arith, ground arith) in
              let both : Same less m (m.key curr) (m.key a) =
                Same-trans order m (m.key curr) k (m.key a) at_key
                  (Same-trans order m k x (m.key a) back (same.1, same.0)) in
              absurd (
                apart a live (
                  Live-unique order m g keys inv curr a (linked, unmarked) (was-Live a live) normal
                    normal' both))
        ];
    held = λ x h.
        let was : keys x ≡ true = ground arith in
        let (a, live, normal', same) = inv.held x was in
        (a, is_Live a (stays_apart a x same h) live, normal', same);
  }

  pub mark-Keeps : Keeps less m g i marks g without_key
  mark-Keeps = record {
    alloc_le = omega arith;
    key_stays = λ a lt. refl;
    linked_stays = λ a h. h;
    private_stays = λ a lt h ne.
        let off : curr ≢ a = λ e. let z = sym linked ∙ ap g.linked e ∙ h in cc in
        (h, refl, next_at a, update_ne m.marked true off);
    gone_stays = λ a h mk.
        let off : curr ≢ a = λ e. let z = sym unmarked ∙ ap m.marked e ∙ mk in cc in
        (update_ne m.marked true off ∙ mk, next_at a);
    ver_stays = λ a h. elim (ℕ_discrete curr a) [
      | yes at ↦ inr (
          subst (λ x. m.ver x < update m.ver curr (m.ver curr + 1) x) at
            (rw (update_self m.ver curr (m.ver curr + 1)) (omega arith)))
      | no off ↦ inl (update_ne m.ver (m.ver curr + 1) off, next_at a, update_ne m.marked true off)
    ];
    live_stays = λ a x live normal' same still. is_Live a (stays_apart a x same still) live;
    leads_stays = λ a b h live p. same_Leads a b p;
  }

  pub mark-Outcome :
      (pred : ℕ) (t : Status (key_set V less))
      → Waits (key_set V less) t (del_op k)
      → g.linked pred ≡ true
      → Outcome less i m g keys t (store_next m curr succ true, del_value pred curr succ, tau)
  unfolding store_next keys_apply_op
  mark-Outcome pred t waits h =
      let was = inv.present curr k (linked, unmarked) normal at_key in
      outcome less i m g keys order inv marks g without_key t (done true) (del_value pred curr succ)
        tau mark-Inv mark-Keeps
        (refl, h, (linked, update_self m.marked curr true, update_self m.next curr succ))
        (commits (del_op k) true refl waits (λ j. (without_key, was j)) refl)
