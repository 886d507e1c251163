-- ===== src/Wf/Universal/Keep.antt =====
-- wf/stack.go: each access keeps what holds of the structure, and gives its participant what its
-- next access needs.
use native.Mathlib.Decide.{ℕ_discrete, dec_lt}
use lockfree.Base.{
  ℕ, ◌+◌, ◌<◌, ◌≡◌, ◌≢◌, inl, inr, sym, ◌∙◌, some, Option-cases, Bool-cases, arith, ◌==◌, update,
  update_self, ltb, leb,
}
use lockfree.Wf.Universal.{
  Object, Mem, Pc, unregistered, got_frontier, stored_head, announced, loaded_anchor, scanning,
  loaded_head, looping, got_slot,
}
use lockfree.Wf.Universal.Access.{register, start, scan}
use lockfree.Wf.Universal.History.{Order, Shared, PcOk, Extends}
use lockfree.Wf.Universal.Stores.{
  store-Extends, quiet-Extends, quiet-Shared, head-Shared, start-started, started-Extends,
  started-Shared,
}

module _ (o : Object) (n i : ℕ) where
  -- What holds behind an access: an order that extends the one before, with the memory and the
  -- participant's locals in step with it.
  abbrev pub Outcome : Order o → Mem o → Mem o × Pc o → Type 0
  Outcome g m (m', p') = (g' : Order o) × Shared o g' m' × Extends o i g m g' m' × PcOk o g' m' i p'

  module _ (g : Order o) (m : Mem o) (sh : Shared o g m) where
    -- A load.
    pub loads : (p' : Pc o) → PcOk o g m i p' → Outcome g m (m, p')
    loads p' ok = (g, sh, quiet-Extends o i g m sh m.cursor m.anchor m.announce, ok)

    -- A store to `head[i]`.
    pub stores_head :
        (f : ℕ) (p' : Pc o)
        → m.seq f ≢ 0
        → PcOk o g (record m { head = update m.head i (some f) }) i p'
        → Outcome g m (record m { head = update m.head i (some f) }, p')
    stores_head f p' f_in ok = (
      g,
      head-Shared o i g m sh f f_in,
      store-Extends o i g m sh m.cursor m.anchor m.announce (some f),
      ok,
    )

    node-lt : (a : ℕ) → m.seq a ≢ 0 → a < m.alloc
    node-lt a h = elim (dec_lt a m.alloc) [
      | yes lt ↦ lt
      | no ge ↦ absurd (h (sh.seq_pos a h ∙ sh.fresh a (omega arith)))
    ]

    pub register-Outcome : (p : Pc o) → PcOk o g m i p → Outcome g m (register o n i m p)
    unfolding register
    register-Outcome unregistered ok = elim (Bool-cases (m.cursor == i)) [
      | inl mine ↦ elim (Bool-cases (leb n m.cursor)) [
        | inl full ↦
            rw (mine, full)
              (
                g,
                quiet-Shared o i g m sh _ m.anchor m.announce sh.anchor_in sh.announce_in,
                quiet-Extends o i g m sh _ m.anchor m.announce,
                tt,
              )
        | inr room ↦
            rw (mine, room)
              (
                g,
                quiet-Shared o i g m sh _ m.anchor m.announce sh.anchor_in sh.announce_in,
                quiet-Extends o i g m sh _ m.anchor m.announce,
                tt,
              )
      ]
      | inr other ↦ rw other (loads unregistered tt)
    ]
    register-Outcome got_slot ok = loads (got_frontier m.anchor) sh.anchor_in
    register-Outcome (got_frontier f) ok = stores_head f (stored_head f) ok ok
    register-Outcome (stored_head f) ok = (
      g,
      quiet-Shared o i g m sh m.cursor m.anchor (update m.announce i (some f)) sh.anchor_in
          (λ j a e. elim (ℕ_discrete i j) [
            | yes same ↦ let found : f ≡ a = ground arith in rw (← found) (node-lt f ok)
            | no other ↦ sh.announce_in j a (ground arith)
          ]),
      quiet-Extends o i g m sh m.cursor m.anchor (update m.announce i (some f)),
      tt,
    )
    register-Outcome p ok = loads p ok

    pub start-Outcome : (op : o.Op) → Outcome g m (start o n i op m)
    start-Outcome op =
        rw (start-started o i g m sh n op)
          (g, started-Shared o i g m sh op, started-Extends o i g m sh op, omega arith)

    pub scan-Outcome : (p : Pc o) → PcOk o g m i p → Outcome g m (scan o n i m p)
    unfolding scan
    scan-Outcome (announced mine) ok = loads (loaded_anchor mine m.anchor) (ok, sh.anchor_in)
    scan-Outcome (loaded_anchor mine best) ok = loads (scanning mine best (m.seq best) 0) ok
    scan-Outcome (scanning mine best best_seq j) ok = elim (Bool-cases (ltb j n)) [
      | inl more ↦ elim (Option-cases (m.head j)) [
        | inl nil ↦ rw (more, nil) (loads (scanning mine best best_seq (j + 1)) ok)
        | inr (nd, there) ↦
            rw (more, there)
              (loads (loaded_head mine best best_seq j nd) (ok.0, ok.1, sh.head_in j nd there))
      ]
      | inr over ↦ rw over (
          stores_head best (looping mine) ok.1
            (ok.0, λ e. cc (sym (update_self m.head i (some best)) ∙ e)))
    ]
    scan-Outcome (loaded_head mine best best_seq j nd) ok =
        elim (Bool-cases (ltb best_seq (m.seq nd))) [
          | inl further ↦ rw further (loads (scanning mine nd (m.seq nd) (j + 1)) (ok.0, ok.2))
          | inr not ↦ rw not (loads (scanning mine best best_seq (j + 1)) (ok.0, ok.1))
        ]
    scan-Outcome p ok = loads p ok
