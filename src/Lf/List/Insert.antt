-- ===== src/Lf/List/Insert.antt =====
-- lf/list.go: `Set` links its node between `pred` and `curr`.
use mathlib.Core.Path.{subst}
use native.Mathlib.Decide.{ℕ_discrete}
use lockfree.Base.{
  ℕ, ◌+◌, ◌<◌, ◌≡◌, ◌≢◌, inl, inr, refl, sym, ap, ◌∙◌, some, Bool, Bool-cases, true, false, arith,
  if◌then◌else◌, ◌||◌, not, ◌&&◌, update, update_self, update_ne, update_same,
}
use lockfree.Base.Less.{Less, IsStrictOrder}
use lockfree.Linear.{tau}
use lockfree.Linear.Spec.{Status, called, done, Waits}
use lockfree.Linear.Simulate.{commits}
use lockfree.Lf.List.{set_op, key_set, keys_apply_op, set_len}
use lockfree.Lf.List.Memory.{Nodes, is_first, is_last, store_next, key_less}
use lockfree.Lf.List.Order.{Same, Before, IsNormal, key_less-Before, Leads}
use lockfree.Lf.List.Inv.{Past, Live, Inv, Keeps, IsLess, IsBehind}
use lockfree.Lf.List.Paths.{Leads-insert, Leads-append, Outcome, outcome}

module _ {K V : Type 0} {less : Less K} (order : IsStrictOrder less) (i : ℕ) (m : Nodes K V)
    (g : Past) (keys : K → Bool) (inv : Inv less m g keys) (k : K) (pred curr n : ℕ)
    (is_less : IsLess less m g pred k) (is_behind : IsBehind less m g curr k) (n_lt : n < m.alloc)
    (free : g.linked n ≡ false) (own : g.owner n ≡ i) (n_next : m.next n ≡ some curr)
    (n_mark : m.marked n ≡ false) (n_key : m.key n ≡ k) (at_pred : m.next pred ≡ some curr)
    (unmarked : m.marked pred ≡ false) where
  abbrev pub linked_to : Nodes K V
  linked_to = record m {
    next = update m.next pred (some n);
    marked = update m.marked pred false;
    ver = update m.ver pred (m.ver pred + 1);
  }

  abbrev pub links : Past
  links = record g { linked = update g.linked n true }

  abbrev pub with_key : K → Bool
  with_key = λ j. if less j k || less k j then keys j else true

  apart : (a : ℕ) → g.linked a ≡ true → n ≢ a
  apart a h e = let z = sym free ∙ ap g.linked e ∙ h in cc

  still_linked : (a : ℕ) → g.linked a ≡ true → links.linked a ≡ true
  still_linked a h = update_ne g.linked true (apart a h) ∙ h

  same_mark : (a : ℕ) → linked_to.marked a ≡ m.marked a
  same_mark a = ap (λ (f : ℕ → Bool). f a) (update_same m.marked pred unmarked)

  is_Live : (a : ℕ) → Live less m g a → Live less linked_to links a
  is_Live a (h, mk) = (still_linked a h, same_mark a ∙ mk)

  pub new-Live : Live less linked_to links n
  new-Live = (update_self g.linked n true, same_mark n ∙ n_mark)

  was_linked : (a : ℕ) → n ≢ a → links.linked a ≡ true → g.linked a ≡ true
  was_linked a ne h = sym (update_ne g.linked true ne) ∙ h

  was-Live : (a : ℕ) → n ≢ a → Live less linked_to links a → Live less m g a
  was-Live a ne (h, mk) = (was_linked a ne h, sym (same_mark a) ∙ mk)

  pub n_IsNormal : IsNormal less m n
  n_IsNormal = (λ e. apart 0 inv.first_live.0 e, λ e. apart 1 inv.last_live.0 e)

  pred-Before : Before less m pred n
  pred-Before =
      sym (key_less-Before order m pred n n_IsNormal) ∙ ap (key_less less m pred) n_key ∙ is_less.1

  Before-curr : Before less m n curr
  Before-curr =
      let (n0, n1) = n_IsNormal in
      let (h, e, f) = is_behind in
      let e' = ap (key_less less m curr) n_key ∙ e in
      let key = n_key in
      let end =
        ap
          (λ (y : K).
            if is_first curr
            then false
            else if is_last curr
            then false
            else not (less (m.key curr) y) && not (less y (m.key curr)))
          n_key
        ∙ f in
      ground arith

  pred-last : 1 ≢ pred
  pred-last e = let z = sym inv.last_next ∙ ap m.next e ∙ at_pred in cc

  Leads-insert_lem : (a b : ℕ) → Leads m.next a b → Leads linked_to.next a b
  Leads-insert_lem =
      Leads-insert m.next pred curr n at_pred n_next (λ e. apart pred is_less.0 (sym e))

  pub insert-Inv : Inv less linked_to links with_key
  insert-Inv = record {
    first_live = is_Live 0 inv.first_live;
    last_live = is_Live 1 inv.last_live;
    last_next = update_ne m.next (some n) (λ e. pred-last (sym e)) ∙ inv.last_next;
    next_in = λ a h ne. elim (ℕ_discrete pred a) [
      | yes at ↦ (
        n,
        ap (update m.next pred (some n)) (sym at) ∙ update_self m.next pred (some n),
        update_self g.linked n true,
        subst (λ x. Before less m x n) at pred-Before,
      )
      | no off ↦ elim (ℕ_discrete n a) [
        | yes at ↦ (
          curr,
          update_ne m.next (some n) off ∙ ap m.next (sym at) ∙ n_next,
          still_linked curr is_behind.0,
          subst (λ x. Before less m x curr) at Before-curr,
        )
        | no away ↦
            let (b, e, h', lt) = inv.next_in a (was_linked a away h) ne in
            (b, update_ne m.next (some n) off ∙ e, still_linked b h', lt)
      ]
    ];
    led = λ a live. elim (ℕ_discrete n a) [
      | yes at ↦
          subst (λ x. Leads linked_to.next 0 x) at
            (Leads-append linked_to.next 0 pred n
              (Leads-insert_lem 0 pred (inv.led pred (is_less.0, unmarked)))
              (update_self m.next pred (some n)))
      | no away ↦ Leads-insert_lem 0 a (inv.led a (was-Live a away live))
    ];
    fresh = λ a le. update_ne g.linked true (λ e. let lt = n_lt in omega arith) ∙ inv.fresh a le;
    present = λ a x live normal same. elim (ℕ_discrete n a) [
      | yes at ↦
          let same' = subst (λ y. Same less m y x) (ap m.key (sym at) ∙ n_key) same in
          rw (same'.1, same'.0) refl
      | no away ↦ let was = inv.present a x (was-Live a away live) normal same in ground arith
    ];
    held = λ x h. elim (Bool-cases (less x k || less k x)) [
      | inl differ ↦
          let was : keys x ≡ true =
            sym (ap (λ (b : Bool). if b then keys x else true) differ) ∙ h in
          let (a, live, normal, same) = inv.held x was in (a, is_Live a live, normal, same)
      | inr alike ↦ (
        n,
        new-Live,
        n_IsNormal,
        subst (λ y. Same less m y x) (sym n_key) (ground arith, ground arith),
      )
    ];
  }

  pub insert-Keeps : Keeps less m g i linked_to links with_key
  insert-Keeps = record {
    alloc_le = omega arith;
    key_stays = λ a lt. refl;
    linked_stays = still_linked;
    private_stays = λ a lt h ne.
        let off : pred ≢ a = λ e. let z = sym is_less.0 ∙ ap g.linked e ∙ h in cc in
        (
          update_ne g.linked true (λ e. ne (ap g.owner (sym e) ∙ own)) ∙ h,
          refl,
          update_ne m.next (some n) off,
          same_mark a,
        );
    gone_stays = λ a h mk.
        let off : pred ≢ a = λ e. let z = sym unmarked ∙ ap m.marked e ∙ mk in cc in
        (same_mark a ∙ mk, update_ne m.next (some n) off);
    ver_stays = λ a h. elim (ℕ_discrete pred a) [
      | yes at ↦ inr (
          subst (λ x. m.ver x < update m.ver pred (m.ver pred + 1) x) at
            (rw (update_self m.ver pred (m.ver pred + 1)) (omega arith)))
      | no off ↦
          inl (update_ne m.ver (m.ver pred + 1) off, update_ne m.next (some n) off, same_mark a)
    ];
    live_stays = λ a x live normal same still. is_Live a live;
    leads_stays = λ a b h live p. Leads-insert_lem a b p;
  }

  pub insert-Outcome :
      (v : V) (t : Status (key_set V less))
      → t ≡ called (set_op k v)
      → Outcome less i m g keys t (store_next m pred (some n) false, set_len, tau)
  unfolding store_next keys_apply_op
  insert-Outcome v t e =
      outcome less i m g keys order inv linked_to links with_key t (done true) set_len tau
        insert-Inv insert-Keeps refl
        (commits (set_op k v) true refl
          (subst (λ u. Waits (key_set V less) u (set_op k v)) (sym e) refl) refl refl)
