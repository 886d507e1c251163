-- ===== src/Lf/List/Sought.antt =====
-- lf/list.go: the way to a node that has the key.
use lockfree.Base.{
  ℕ, ◌+◌, ◌≡◌, ◌≢◌, inl, inr, refl, sym, ap, ◌∙◌, some, Bool, true, false, arith, update, update_ne,
}
use lockfree.Base.Less.{Less, IsStrictOrder, lt-lt_of_le, lt_trans}
use lockfree.Lf.List.Memory.{Nodes, key_less, key_equal}
use lockfree.Lf.List.Order.{Same, IsNormal, Leads, here, there}
use lockfree.Lf.List.Inv.{Past, Live, Inv, Sought, Keeps}
use lockfree.Lf.List.Paths.{Leads-step, Leads-meet, Leads-Before, link-Before}

module _ {K V : Type 0} {less : Less K} (order : IsStrictOrder less) (m : Nodes K V) (g : Past)
    (keys : K → Bool) (inv : Inv less m g keys) where
  -- From a live node before the key.
  pub Live-Sought :
      (x : K) (a : ℕ)
      → Live less m g a
      → key_less less m a x ≡ true
      → keys x ≡ true
      → Sought less m g x a
  Live-Sought x a live before has =
      let (c, live', (c0, c1), (p, q)) = inv.held x has in
      elim (Leads-meet m.next 0 a c (inv.led a live) (inv.led c live')) [
        | inl path ↦ (c, live', (c0, c1), (p, q), path)
        | inr back ↦ elim (Leads-Before order m g keys inv c a live'.0 back) [
          | inl same ↦ (c, live', (c0, c1), (p, q), here (sym same))
          | inr lt ↦ absurd (ground (arith, lt_trans order (m.key c) (m.key a) x))
        ]
      ]

  -- One node on, from a node that is not at the key.
  pub Sought-step :
      (x : K) (a b : ℕ)
      → m.next a ≡ some b
      → ((c : ℕ) → Live less m g c → IsNormal less m c → Same less m (m.key c) x → a ≢ c)
      → Sought less m g x a
      → Sought less m g x b
  Sought-step x a b e apart (c, live, normal, same, path) =
      (c, live, normal, same, Leads-step m.next a c b e (apart c live normal same) path)

  -- There is none behind the key.
  pub Sought-behind :
      (x : K) (a : ℕ)
      → g.linked a ≡ true
      → key_less less m a x ≡ false
      → key_equal less m a x ≡ false
      → Sought less m g x a
      → ⊥
  Sought-behind x a h e f (c, live, (c0, c1), (p, q), path) =
      elim (Leads-Before order m g keys inv a c h path) [
        | inl same ↦
            let f' : key_equal less m c x ≡ false =
              ap (λ (y : ℕ). key_equal less m y x) (sym same) ∙ f in
            ground arith
        | inr lt ↦ ground (arith, lt-lt_of_le order (m.key a) (m.key c) x)
      ]

  -- A node that is not linked, and belongs to goroutine `i`, gets its link.
  module _ (i n curr : ℕ) (free : g.linked n ≡ false) (own : g.owner n ≡ i) where
    abbrev pub prepared : Nodes K V
    prepared = record m {
      next = update m.next n (some curr);
      marked = update m.marked n false;
      ver = update m.ver n (m.ver n + 1);
    }

    apart : (a : ℕ) → g.linked a ≡ true → n ≢ a
    apart a h e = let z = sym free ∙ ap g.linked e ∙ h in cc

    same_next : (a : ℕ) → g.linked a ≡ true → prepared.next a ≡ m.next a
    same_next a h = update_ne m.next (some curr) (apart a h)

    same_mark : (a : ℕ) → g.linked a ≡ true → prepared.marked a ≡ m.marked a
    same_mark a h = update_ne m.marked false (apart a h)

    same_Leads : (a b : ℕ) → g.linked a ≡ true → Leads m.next a b → Leads prepared.next a b
    same_Leads a b h (here e) = here e
    same_Leads a b h (there c e rest) =
        there c (same_next a h ∙ e) (same_Leads c b (link-Before order m g keys inv a c h e).0 rest)

    was-Live : (a : ℕ) → Live less prepared g a → Live less m g a
    was-Live a (h, mk) = (h, sym (same_mark a h) ∙ mk)

    is_Live : (a : ℕ) → Live less m g a → Live less prepared g a
    is_Live a (h, mk) = (h, same_mark a h ∙ mk)

    pub prepared-Inv : Inv less prepared g keys
    prepared-Inv = record {
      first_live = is_Live 0 inv.first_live;
      last_live = is_Live 1 inv.last_live;
      last_next = same_next 1 inv.last_live.0 ∙ inv.last_next;
      next_in = λ a h ne. let (b, e, h', lt) = inv.next_in a h ne in (b, same_next a h ∙ e, h', lt);
      led = λ a live. same_Leads 0 a inv.first_live.0 (inv.led a (was-Live a live));
      fresh = inv.fresh;
      present = λ a x live normal same. inv.present a x (was-Live a live) normal same;
      held = λ x h. let (a, live, normal, same) = inv.held x h in (a, is_Live a live, normal, same);
    }

    pub prepared-Keeps : Keeps less m g i prepared g keys
    prepared-Keeps = record {
      alloc_le = omega arith;
      key_stays = λ a lt. refl;
      linked_stays = λ a h. h;
      private_stays = λ a lt free' ne.
          let off : n ≢ a = λ e. ne (ap g.owner (sym e) ∙ own) in
          (free', refl, update_ne m.next (some curr) off, update_ne m.marked false off);
      gone_stays = λ a h mk. (same_mark a h ∙ mk, same_next a h);
      ver_stays =
          λ a h. inl (update_ne m.ver (m.ver n + 1) (apart a h), same_next a h, same_mark a h);
      live_stays = λ a x live normal same still. is_Live a live;
      leads_stays = λ a b h live p. same_Leads a b h p;
    }
