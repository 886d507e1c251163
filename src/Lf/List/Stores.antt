-- ===== src/Lf/List/Stores.antt =====
-- lf/list.go: accesses that store no link that others can reach.
use mathlib.Core.Path.{subst}
use lockfree.Base.{
  ℕ, ◌+◌, ◌<◌, ◌≡◌, ◌≢◌, inl, refl, sym, ◌∙◌, some, Bool, true, false, arith, if◌then◌else◌, update,
  update_self, update_ne,
}
use lockfree.Base.Less.{Less, IsStrictOrder}
use lockfree.Linear.{Event, tau}
use lockfree.Linear.Spec.{Status}
use lockfree.Linear.Simulate.{Local, stays}
use lockfree.Lf.List.{key_set, Pc, set_node, set_link}
use lockfree.Lf.List.Memory.{Nodes, is_first, is_last}
use lockfree.Lf.List.Order.{Same, Before, Leads, here, there}
use lockfree.Lf.List.Inv.{Past, Live, Inv, PcOk, Keeps}
use lockfree.Lf.List.Stable.{linked-lt, IsLess-stays, IsBehind-stays}
use lockfree.Lf.List.Paths.{link-Before, Outcome, outcome}

module _ {K V : Type 0} {less : Less K} (order : IsStrictOrder less) (i : ℕ) (m : Nodes K V)
    (g : Past) (keys : K → Bool) (inv : Inv less m g keys) where
  -- A store of a value, or of the length.
  pub quiet-Inv : (vals : ℕ → V) (n : ℕ) → Inv less (record m { val = vals; length = n }) g keys
  quiet-Inv vals n = record {
    first_live = inv.first_live;
    last_live = inv.last_live;
    last_next = inv.last_next;
    next_in = inv.next_in;
    led = inv.led;
    fresh = inv.fresh;
    present = inv.present;
    held = inv.held;
  }

  pub quiet-Keeps :
      (vals : ℕ → V) (n : ℕ) → Keeps less m g i (record m { val = vals; length = n }) g keys
  quiet-Keeps vals n = record {
    alloc_le = omega arith;
    key_stays = λ a h. refl;
    linked_stays = λ a h. h;
    private_stays = λ a lt free ne. (free, refl, refl, refl);
    gone_stays = λ a h k. (k, refl);
    ver_stays = λ a h. inl (refl, refl, refl);
    live_stays = λ a x live normal same still. live;
    leads_stays = λ a b h live p. p;
  }

  pub quiet :
      (vals : ℕ → V) (n : ℕ) (p' : Pc K V) (t t' : Status (key_set V less))
      (e : Event (key_set V less))
      → PcOk less (record m { val = vals; length = n }) g i p' t'
      → Local keys t keys t' e
      → Outcome less i m g keys t (record m { val = vals; length = n }, p', e)
  quiet vals n p' t t' e own local =
      outcome less i m g keys order inv (record m { val = vals; length = n }) g keys t t' p' e
        (quiet-Inv vals n) (quiet-Keeps vals n) own local

  -- An access that stores nothing.
  pub no_store :
      (p' : Pc K V) (t t' : Status (key_set V less)) (e : Event (key_set V less))
      → PcOk less m g i p' t'
      → Local keys t keys t' e
      → Outcome less i m g keys t (m, p', e)
  no_store p' t t' e own local = quiet m.val m.length p' t t' e own local

  -- `Set` makes its node.
  module _ (k : K) (v : V) (curr : ℕ) where
    abbrev pub made : Nodes K V
    made = record m {
      key = update m.key m.alloc k;
      val = update m.val m.alloc v;
      next = update m.next m.alloc (some curr);
      marked = update m.marked m.alloc false;
      alloc = m.alloc + 1;
    }

    abbrev pub makes : Past
    makes = record g { owner = update g.owner m.alloc i }

    other : (a : ℕ) → a < m.alloc → m.alloc ≢ a
    other a lt e = omega arith

    same_key : (a : ℕ) → a < m.alloc → made.key a ≡ m.key a
    same_key a lt = update_ne m.key k (other a lt)

    same_mark : (a : ℕ) → a < m.alloc → made.marked a ≡ m.marked a
    same_mark a lt = update_ne m.marked false (other a lt)

    same_next : (a : ℕ) → a < m.alloc → made.next a ≡ m.next a
    same_next a lt = update_ne m.next (some curr) (other a lt)

    was-Live : (a : ℕ) → Live less made makes a → Live less m g a
    was-Live a (h, mk) = (h, sym (same_mark a (linked-lt order inv a h)) ∙ mk)

    is_Live : (a : ℕ) → Live less m g a → Live less made makes a
    is_Live a (h, mk) = (h, same_mark a (linked-lt order inv a h) ∙ mk)

    same_Before :
        (a b : ℕ) → g.linked a ≡ true → g.linked b ≡ true → Before less m a b → Before less made a b
    same_Before a b h h' lt =
        (λ j.
          if is_first b
          then false
          else if is_last a
          then false
          else if is_first a
          then true
          else if is_last b
          then true
          else less (same_key a (linked-lt order inv a h) j)
              (same_key b (linked-lt order inv b h') j))
        ∙ lt

    same_Leads : (a b : ℕ) → g.linked a ≡ true → Leads m.next a b → Leads made.next a b
    same_Leads a b h (here e) = here e
    same_Leads a b h (there c e rest) =
        there c (same_next a (linked-lt order inv a h) ∙ e)
          (same_Leads c b (link-Before order m g keys inv a c h e).0 rest)

    pub made-Inv : Inv less made makes keys
    made-Inv = record {
      first_live = is_Live 0 inv.first_live;
      last_live = is_Live 1 inv.last_live;
      last_next = same_next 1 (linked-lt order inv 1 inv.last_live.0) ∙ inv.last_next;
      next_in = λ a h ne.
          let (b, e, h', lt) = inv.next_in a h ne in
          (b, same_next a (linked-lt order inv a h) ∙ e, h', same_Before a b h h' lt);
      led = λ a live. same_Leads 0 a inv.first_live.0 (inv.led a (was-Live a live));
      fresh = λ a le. inv.fresh a (omega arith);
      present = λ a x live normal same.
          inv.present a x (was-Live a live) normal
            (subst (λ y. Same less m y x) (same_key a (linked-lt order inv a live.0)) same);
      held = λ x h.
          let (a, live, normal, same) = inv.held x h in
          (
            a,
            is_Live a live,
            normal,
            subst (λ y. Same less m y x) (sym (same_key a (linked-lt order inv a live.0))) same,
          );
    }

    pub made-Keeps : Keeps less m g i made makes keys
    made-Keeps = record {
      alloc_le = omega arith;
      key_stays = same_key;
      linked_stays = λ a h. h;
      private_stays =
          λ a lt free ne. (free, update_ne g.owner i (other a lt), same_next a lt, same_mark a lt);
      gone_stays =
          λ a h mk. let lt = linked-lt order inv a h in (same_mark a lt ∙ mk, same_next a lt);
      ver_stays =
          λ a h. let lt = linked-lt order inv a h in inl (refl, same_next a lt, same_mark a lt);
      live_stays = λ a x live normal same still. is_Live a live;
      leads_stays = λ a b h live p. same_Leads a b h p;
    }

    pub make-Outcome :
        (pred : ℕ) (t : Status (key_set V less))
        → PcOk less m g i (set_node k v pred curr) t
        → Outcome less i m g keys t (made, set_link k v pred curr m.alloc, tau)
    make-Outcome pred t (e, l, b) =
        let free = inv.fresh m.alloc (omega arith) in
        outcome less i m g keys order inv made makes keys t t (set_link k v pred curr m.alloc) tau
          made-Inv made-Keeps
          (
            e,
            IsLess-stays order inv made makes keys made-Inv made-Keeps pred k l,
            IsBehind-stays order inv made makes keys made-Inv made-Keeps curr k b,
            (
              omega arith,
              free,
              update_self g.owner m.alloc i,
              update_self m.next m.alloc (some curr),
              update_self m.marked m.alloc false,
              update_self m.key m.alloc k,
            ),
          )
          (stays refl refl refl)
