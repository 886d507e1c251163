-- ===== src/Wf/Universal/Access.antt =====
-- wf/stack.go: `Handle` and `apply` as sequences of atomic accesses.
use lockfree.Base.{
  ℕ, ◌+◌, ◌%◌, Option, none, some, List, [], ◌∷◌, ltb, leb, ◌==◌, if◌then◌else◌, update,
}
use lockfree.Wf.Universal.{
  Turn, registers, starts, scans, links, publishes, finishes, System, Object, Mem, Pc, unregistered,
  got_slot, got_frontier, stored_head, idle, announced, loaded_anchor, scanning, loaded_head,
  looping, pending, loaded_before, chosen_turn, loaded_cand, preferring, agreed, loaded_after,
  publishing, computed, stored_res, loaded_seq, moving, linked, loaded_res, advancing, loaded_cur,
  swinging, returned, too_many_handles, nil_dereference,
}

module _ (o : Object) where
  open o use {Op, initial, apply_op, zero_op, zero_response}

  -- `NewStack`, for `maxHandles >= 1`: the sentinel, of the initial state and of `seq` 1.
  unfoldable pub new : Mem o
  new = record {
    op = λ _. zero_op;
    next = λ _. none;
    res = update (λ _. none) 0 (some (initial, zero_response));
    seq = update (λ _. 0) 0 1;
    alloc = 1;
    anchor = 0;
    head = λ _. none;
    announce = λ _. none;
    cursor = 0;
  }

  -- `p.CompareAndSwap(nil, v)` on a pointer, and `seq.CompareAndSwap(0, v)`.
  abbrev pub cas_nil : {A : Type 0} → Option A → A → Option A
  cas_nil none v = some v
  cas_nil (some a) v = some a

  abbrev pub cas_zero : ℕ → ℕ → ℕ
  cas_zero old v = if old == 0 then v else old

  module _ (n tid : ℕ) where
    -- `Handle`. The slot that a call gets is the cursor's value: participant `tid` is the one that
    -- gets slot `tid`, or the one that asks when all are taken.
    unfoldable pub register : Mem o → Pc o → Mem o × Pc o
    register m unregistered =
        if m.cursor == tid
        then (
          record m { cursor = m.cursor + 1 },
          if leb n m.cursor then too_many_handles else got_slot,
        )
        else (m, unregistered)
    register m got_slot = (m, got_frontier m.anchor)
    register m (got_frontier f) = (record m { head = update m.head tid (some f) }, stored_head f)
    register m (stored_head f) = (record m { announce = update m.announce tid (some f) }, idle)
    register m p = (m, p)

    -- `mine := &stackNode[T]{op: op, arg: arg}; s.announce[tid].Store(mine)`
    unfoldable pub start : Op → Mem o → Mem o × Pc o
    start op m = (
      record m {
        op = update m.op m.alloc op;
        next = update m.next m.alloc none;
        res = update m.res m.alloc none;
        seq = update m.seq m.alloc 0;
        alloc = m.alloc + 1;
        announce = update m.announce tid (some m.alloc);
      },
      announced m.alloc,
    )

    -- `maxFrontier`, and the store of its result in `head[tid]`.
    unfoldable pub scan : Mem o → Pc o → Mem o × Pc o
    scan m (announced mine) = (m, loaded_anchor mine m.anchor)
    scan m (loaded_anchor mine best) = (m, scanning mine best (m.seq best) 0)
    scan m (scanning mine best best_seq i) =
        if ltb i n
        then (
          m,
          elim (m.head i) [
            | none ↦ scanning mine best best_seq (i + 1)
            | some nd ↦ loaded_head mine best best_seq i nd
          ],
        )
        else (record m { head = update m.head tid (some best) }, looping mine)
    scan m (loaded_head mine best best_seq i nd) = (
      m,
      if ltb best_seq (m.seq nd)
          then scanning mine nd (m.seq nd) (i + 1)
          else scanning mine best best_seq (i + 1),
    )
    scan m p = (m, p)

    -- The loop of `apply` up to the consensus on the successor of `before`.
    unfoldable pub link : Mem o → Pc o → Mem o × Pc o
    link m (looping mine) = (m, if m.seq mine == 0 then pending mine else linked mine)
    link m (pending mine) =
        (m, elim (m.head tid) [ none ↦ nil_dereference | some before ↦ loaded_before mine before ])
    link m (loaded_before mine before) = (m, chosen_turn mine before ((m.seq before + 1) % n))
    link m (chosen_turn mine before help_idx) = (
      m,
      elim (m.announce help_idx) [
        | none ↦ preferring mine before mine
        | some cand ↦ loaded_cand mine before cand
      ],
    )
    link m (loaded_cand mine before cand) =
        (m, if m.seq cand == 0 then preferring mine before cand else preferring mine before mine)
    link m (preferring mine before prefer) = (
      record m { next = update m.next before (cas_nil (m.next before) prefer) },
      agreed mine before,
    )
    link m (agreed mine before) = (
      m,
      elim (m.next before) [ none ↦ nil_dereference | some after ↦ loaded_after mine before after ],
    )
    link m (loaded_after mine before after) =
        (m, if m.seq after == 0 then publishing mine before after else moving mine after)
    link m p = (m, p)

    -- `publish`, and the store of `after` in `head[tid]`.
    unfoldable pub publish : Mem o → Pc o → Mem o × Pc o
    publish m (publishing mine before after) = (
      m,
      elim (m.res before) [ none ↦ nil_dereference | some br ↦ computed mine before after br ],
    )
    publish m (computed mine before after br) = (
      record m { res = update m.res after (cas_nil (m.res after) (apply_op (m.op after) br.0)) },
      stored_res mine before after,
    )
    publish m (stored_res mine before after) = (m, loaded_seq mine before after (m.seq before))
    publish m (loaded_seq mine before after s) =
        (record m { seq = update m.seq after (cas_zero (m.seq after) (s + 1)) }, moving mine after)
    publish m (moving mine after) =
        (record m { head = update m.head tid (some after) }, looping mine)
    publish m p = (m, p)

    -- The end of `apply`, with `advanceAnchor`.
    unfoldable pub finish : Mem o → Pc o → Mem o × Pc o
    finish m (linked mine) =
        (m, elim (m.res mine) [ none ↦ nil_dereference | some r ↦ loaded_res mine r ])
    finish m (loaded_res mine r) =
        (record m { head = update m.head tid (some mine) }, advancing mine r)
    finish m (advancing mine r) = (m, loaded_cur mine r m.anchor)
    -- `n.seq` is positive here and never changes again, so it may be read with `cur.seq`.
    finish m (loaded_cur mine r cur) =
        (m, if leb (m.seq mine) (m.seq cur) then returned mine r else swinging mine r cur)
    finish m (swinging mine r cur) =
        if m.anchor == cur
        then (record m { anchor = mine }, returned mine r)
        else (m, advancing mine r)
    finish m p = (m, p)

    -- The next access of the participant, by the part of the code it is in. `starts op` is the next
    -- call, of a participant that has none under way; elsewhere it changes nothing.
    unfoldable pub access : Turn o → Mem o → Pc o → Mem o × Pc o
    access registers m p = register m p
    access (starts op) m idle = start op m
    access (starts op) m (returned mine r) = start op m
    access (starts op) m p = (m, p)
    access scans m p = scan m p
    access links m p = link m p
    access publishes m p = publish m p
    access finishes m p = finish m p

  -- The participants over one structure, of `n` slots.
  unfoldable pub step : ℕ → System o → ℕ → Turn o → System o
  step n s i t =
      let (m, p) = access n i t s.mem (s.pc i) in record { mem = m; pc = update s.pc i p }

  unfoldable pub run : ℕ → System o → List (ℕ × Turn o) → System o
  unfolding step access register start scan link publish finish
  run n s [] = s
  run n s ((i, t) ∷ ts) = run n (step n s i t) ts
