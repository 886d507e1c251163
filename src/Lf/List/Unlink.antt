-- ===== src/Lf/List/Unlink.antt =====
-- lf/list.go: `search` or `Del` takes a marked node out of the list.
use mathlib.Core.Path.{subst}
use native.Mathlib.Decide.{ℕ_discrete}
use lockfree.Base.{
  ℕ, ◌+◌, ◌<◌, ◌≡◌, ◌≢◌, inl, inr, refl, sym, ap, ◌∙◌, some, Bool, true, false, arith, update,
  update_self, update_ne, update_same,
}
use lockfree.Base.Less.{Less, IsStrictOrder}
use lockfree.Linear.{tau}
use lockfree.Linear.Spec.{Status}
use lockfree.Linear.Simulate.{stays}
use lockfree.Lf.List.{key_set, Pc}
use lockfree.Lf.List.Memory.{Nodes, store_next}
use lockfree.Lf.List.Order.{Before, Before-trans, Leads}
use lockfree.Lf.List.Inv.{Past, Live, Inv, PcOk, Keeps, IsGone}
use lockfree.Lf.List.Paths.{Leads-unlink, link-Before, Outcome, outcome}

module _ {K V : Type 0} {less : Less K} (order : IsStrictOrder less) (i : ℕ) (m : Nodes K V)
    (g : Past) (keys : K → Bool) (inv : Inv less m g keys) (pred curr succ : ℕ)
    (linked : g.linked pred ≡ true) (gone : IsGone less m g curr (some succ))
    (at_pred : m.next pred ≡ some curr) (unmarked : m.marked pred ≡ false) where
  abbrev pub unlinks : Nodes K V
  unlinks = record m {
    next = update m.next pred (some succ);
    marked = update m.marked pred false;
    ver = update m.ver pred (m.ver pred + 1);
  }

  same_mark : (a : ℕ) → unlinks.marked a ≡ m.marked a
  same_mark a = ap (λ (f : ℕ → Bool). f a) (update_same m.marked pred unmarked)

  is_Live : (a : ℕ) → Live less m g a → Live less unlinks g a
  is_Live a (h, mk) = (h, same_mark a ∙ mk)

  was-Live : (a : ℕ) → Live less unlinks g a → Live less m g a
  was-Live a (h, mk) = (h, sym (same_mark a) ∙ mk)

  apart : (a : ℕ) → m.marked a ≡ false → curr ≢ a
  apart a mk e = let z = sym gone.1 ∙ ap m.marked e ∙ mk in cc

  still_Leads : (a b : ℕ) → m.marked b ≡ false → Leads m.next a b → Leads unlinks.next a b
  still_Leads a b mk p =
      Leads-unlink m.next pred curr succ at_pred gone.2 (λ e. apart pred unmarked (sym e)) a b
        (apart b mk) p

  pred-succ : (g.linked succ ≡ true) × Before less m pred succ
  pred-succ =
      let (h, lt) = link-Before order m g keys inv pred curr linked at_pred in
      let (h', lt') = link-Before order m g keys inv curr succ h gone.2 in
      (h', Before-trans order m pred curr succ lt lt')

  pub unlink-Inv : Inv less unlinks g keys
  unlink-Inv = record {
    first_live = is_Live 0 inv.first_live;
    last_live = is_Live 1 inv.last_live;
    last_next =
        let off : pred ≢ 1 = λ e. let z = sym at_pred ∙ ap m.next e ∙ inv.last_next in cc in
        update_ne m.next (some succ) off ∙ inv.last_next;
    next_in = λ a h ne. elim (ℕ_discrete pred a) [
      | yes at ↦ (
        succ,
        ap (update m.next pred (some succ)) (sym at) ∙ update_self m.next pred (some succ),
        pred-succ.0,
        subst (λ x. Before less m x succ) at pred-succ.1,
      )
      | no off ↦
          let (b, e, h', lt) = inv.next_in a h ne in
          (b, update_ne m.next (some succ) off ∙ e, h', lt)
    ];
    led = λ a live. let was = was-Live a live in still_Leads 0 a was.1 (inv.led a was);
    fresh = inv.fresh;
    present = λ a x live normal same. inv.present a x (was-Live a live) normal same;
    held = λ x h. let (a, live, normal, same) = inv.held x h in (a, is_Live a live, normal, same);
  }

  pub unlink-Keeps : Keeps less m g i unlinks g keys
  unlink-Keeps = record {
    alloc_le = omega arith;
    key_stays = λ a lt. refl;
    linked_stays = λ a h. h;
    private_stays = λ a lt h ne.
        let off : pred ≢ a = λ e. let z = sym linked ∙ ap g.linked e ∙ h in cc in
        (h, refl, update_ne m.next (some succ) off, same_mark a);
    gone_stays = λ a h mk.
        let off : pred ≢ a = λ e. let z = sym unmarked ∙ ap m.marked e ∙ mk in cc in
        (same_mark a ∙ mk, update_ne m.next (some succ) off);
    ver_stays = λ a h. elim (ℕ_discrete pred a) [
      | yes at ↦ inr (
          subst (λ x. m.ver x < update m.ver pred (m.ver pred + 1) x) at
            (rw (update_self m.ver pred (m.ver pred + 1)) (omega arith)))
      | no off ↦
          inl (update_ne m.ver (m.ver pred + 1) off, update_ne m.next (some succ) off, same_mark a)
    ];
    live_stays = λ a x live normal same still. is_Live a live;
    leads_stays = λ a b h live p. still_Leads a b (was-Live b live).1 p;
  }

  pub unlink-Outcome :
      (p' : Pc K V) (t : Status (key_set V less))
      → (Inv less (store_next m pred (some succ) false) g keys
          → Keeps less m g i (store_next m pred (some succ) false) g keys
          → PcOk less (store_next m pred (some succ) false) g i p' t)
      → Outcome less i m g keys t (store_next m pred (some succ) false, p', tau)
  unfolding store_next
  unlink-Outcome p' t own =
      outcome less i m g keys order inv unlinks g keys t t p' tau unlink-Inv unlink-Keeps
        (own unlink-Inv unlink-Keeps) (stays refl refl refl)
