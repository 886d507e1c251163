-- ===== src/Wf/Universal/Stable.antt =====
-- wf/stack.go: what a participant knows survives the accesses of the others.
use lockfree.Base.{ℕ, ◌<◌, ◌≡◌, ◌≢◌, inl, inr, sym, ap, ◌∙◌, none, Option-cases, arith}
use lockfree.Wf.Universal.{
  Object, Result, Mem, Pc, unregistered, got_frontier, stored_head, announced, loaded_anchor,
  scanning, loaded_head, looping, pending, loaded_before, chosen_turn, loaded_cand, preferring,
  agreed, loaded_after, publishing, computed, stored_res, loaded_seq, moving, linked, loaded_res,
  advancing, loaded_cur, swinging, returned, nil_dereference, too_many_handles, idle, got_slot,
}
use lockfree.Wf.Universal.History.{Order, Shared, IsAhead, Follows, PcOk, Extends}

module _ (o : Object) {i : ℕ} {g g' : Order o} {m m' : Mem o} (sh : Shared o g m)
    (x : Extends o i g m g' m') where
  seq-ne : {a : ℕ} → m.seq a ≢ 0 → m'.seq a ≢ 0
  seq-ne {a} h e = h (sym (x.seq_stays a h) ∙ e)

  pos-ne : {a : ℕ} → m.seq a ≢ 0 → g.pos a ≢ 0
  pos-ne {a} h e = h (sh.seq_pos a h ∙ e)

  alloc-lt : {a : ℕ} → a < m.alloc → a < m'.alloc
  alloc-lt h = let le = x.alloc_le in omega arith

  IsAhead-stays : {b a : ℕ} → m.seq b ≢ 0 → IsAhead o g m b a → IsAhead o g' m' b a
  IsAhead-stays {b} {a} h (inl out) =
      let same = x.pos_stays b (pos-ne h) in
      let inside = (sh.sequential.log-pos b (pos-ne h)).1 in omega (arith, x.pos_new a out)
  IsAhead-stays {b} {a} h (inr behind) =
      let same = x.pos_stays b (pos-ne h) in
      let same_a = x.pos_stays a (λ e. omega arith) in inr (omega arith)

  Follows-stays : {b a : ℕ} → Follows o g m b a → Follows o g' m' b a
  Follows-stays {b} {a} (h, e) = (seq-ne h, x.next_stays b a e)

  result-stays :
      {a : ℕ} {r : Result o} → m.seq a ≢ 0 → r ≡ g.result (g.pos a) → r ≡ g'.result (g'.pos a)
  result-stays {a} h e =
      e
      ∙ sym (x.result_stays (g.pos a) (sh.sequential.log-pos a (pos-ne h)).1)
      ∙ ap g'.result (sym (x.pos_stays a (pos-ne h)))

  res-ne : {a : ℕ} → m.res a ≢ none → m'.res a ≢ none
  res-ne {a} h e = elim (Option-cases (m.res a)) [
    | inl nil ↦ h nil
    | inr (r, some_r) ↦ cc (x.res_stays a r some_r)
  ]

  next-ne : {a : ℕ} → m.next a ≢ none → m'.next a ≢ none
  next-ne {a} h e = elim (Option-cases (m.next a)) [
    | inl nil ↦ h nil
    | inr (b, some_b) ↦ cc (x.next_stays a b some_b)
  ]

  pub PcOk-stays : (j : ℕ) (p : Pc o) → j ≢ i → PcOk o g m j p → PcOk o g' m' j p
  PcOk-stays j (got_frontier f) ne k = seq-ne k
  PcOk-stays j (stored_head f) ne k = seq-ne k
  PcOk-stays j (announced mine) ne k = alloc-lt k
  PcOk-stays j (loaded_anchor mine b) ne (k, l) = (alloc-lt k, seq-ne l)
  PcOk-stays j (scanning mine b s i') ne (k, l) = (alloc-lt k, seq-ne l)
  PcOk-stays j (loaded_head mine b s i' nd) ne (k, l, n) = (alloc-lt k, seq-ne l, seq-ne n)
  PcOk-stays j (looping mine) ne (k, h) = (alloc-lt k, rw (x.head_stays j ne) h)
  PcOk-stays j (pending mine) ne (k, h, f) = (
    alloc-lt k,
    rw (x.head_stays j ne) h,
    λ b e. let e' = sym (x.head_stays j ne) ∙ e in IsAhead-stays (sh.head_in j b e') (f b e'),
  )
  PcOk-stays j (loaded_before mine b) ne (k, h, f) = (alloc-lt k, seq-ne h, IsAhead-stays h f)
  PcOk-stays j (chosen_turn mine b t) ne (k, h, f) = (alloc-lt k, seq-ne h, IsAhead-stays h f)
  PcOk-stays j (loaded_cand mine b c) ne (k, h, f, l) =
      (alloc-lt k, seq-ne h, IsAhead-stays h f, alloc-lt l)
  PcOk-stays j (preferring mine b p) ne (k, h, l, f) =
      (alloc-lt k, seq-ne h, alloc-lt l, IsAhead-stays h f)
  PcOk-stays j (agreed mine b) ne (k, h, n) = (alloc-lt k, seq-ne h, next-ne n)
  PcOk-stays j (loaded_after mine b a) ne (k, f) = (alloc-lt k, Follows-stays f)
  PcOk-stays j (publishing mine b a) ne (k, f) = (alloc-lt k, Follows-stays f)
  PcOk-stays j (computed mine b a br) ne (k, f, r) =
      (alloc-lt k, Follows-stays f, result-stays f.0 r)
  PcOk-stays j (stored_res mine b a) ne (k, f, r) = (alloc-lt k, Follows-stays f, res-ne r)
  PcOk-stays j (loaded_seq mine b a s) ne (k, f, r, e) =
      (alloc-lt k, Follows-stays f, res-ne r, e ∙ sym (x.seq_stays b f.0))
  PcOk-stays j (moving mine a) ne (k, h) = (alloc-lt k, seq-ne h)
  PcOk-stays j (linked mine) ne h = seq-ne h
  PcOk-stays j (loaded_res mine r) ne (h, e) = (seq-ne h, result-stays h e)
  PcOk-stays j (advancing mine r) ne (h, e) = (seq-ne h, result-stays h e)
  PcOk-stays j (loaded_cur mine r c) ne (h, e) = (seq-ne h, result-stays h e)
  PcOk-stays j (swinging mine r c) ne (h, e) = (seq-ne h, result-stays h e)
  PcOk-stays j (returned mine r) ne (h, e) = (seq-ne h, result-stays h e)
  PcOk-stays j nil_dereference ne k = k
  PcOk-stays j unregistered ne k = tt
  PcOk-stays j got_slot ne k = tt
  PcOk-stays j idle ne k = tt
  PcOk-stays j too_many_handles ne k = tt
