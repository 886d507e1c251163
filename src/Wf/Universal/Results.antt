-- ===== src/Wf/Universal/Results.antt =====
-- wf/stack.go: what the calls of `apply` return, under every schedule.
use mathlib.Core.Path.{subst}
use lockfree.Base.{
  ℕ, ◌+◌, ◌-◌, ◌≤◌, ◌<◌, ◌≡◌, ◌≢◌, ◌++◌, [], ◌∷◌, inl, inr, refl, sym, ap, ◌∙◌, arith, List,
  update_self, All,
}
use lockfree.Wf.Universal.{
  Object, Result, Mem, Pc, Turn, System, starts, idle, returned, nil_dereference,
}
use lockfree.Wf.Universal.Access.{start, access, step, run}
use lockfree.Wf.Universal.History.{Order, Shared, PcOk}
use lockfree.Wf.Universal.Linearizable.{
  at_rest, at_rest-IsLinked, Prefix, prefix_trans, sentinel_order, IsLinked, run-Continues,
  step-Continues,
}
use lockfree.Wf.Universal.Calls.{IsReady, IsQuiet, Owns, run-Owns}

module _ (o : Object) where
  -- A participant whose call has returned got the result at the position of its operation, and none
  -- has met a nil pointer.
  abbrev pub Answered : Order o → Pc o → Type 0
  Answered g (returned mine r) = (g.pos mine ≢ 0) × (r ≡ g.result (g.pos mine))
  Answered g nil_dereference = ⊥
  Answered g p = Unit

  PcOk-Answered :
      (g : Order o) (m : Mem o) (sh : Shared o g m) (i : ℕ) (p : Pc o)
      → PcOk o g m i p
      → Answered g p
  PcOk-Answered g m sh i (returned mine r) ok = (λ e. ok.0 (sh.seq_pos mine ok.0 ∙ e), ok.1)
  PcOk-Answered g m sh i nil_dereference ok = ok
  PcOk-Answered g m sh i p ok = tt

  access-start :
      (n i : ℕ) (op : o.Op) (m : Mem o) (p : Pc o)
      → IsReady o p
      → access o n i (starts op) m p ≡ start o n i op m
  unfolding access
  access-start n i op m idle h = refl
  access-start n i op m (returned mine r) h = refl
  access-start n i op m p h = absurd h

  -- What a call of participant `i` that started in `s` has done when it has returned `r` in `s'`. The
  -- orders are those of the linked nodes: `next` leads from each to its successor, `seq` is its position
  -- and `res` its result, and each result is that of applying its operation to the one before.
  pub record TakesEffect (op : o.Op) (s s' : System o) (mine : ℕ) (r : Result o) : Type 0 where
    pub before : Order o
    pub after : Order o
    pub before_shared : Shared o before s.mem
    pub after_shared : Shared o after s'.mem
    pub before_answered : (j : ℕ) → Answered before (s.pc j)
    pub after_answered : (j : ℕ) → Answered after (s'.pc j)
    pub extends : Prefix o before s.mem after s'.mem
    pub own_op : s'.mem.op mine ≡ op
    pub inside : (before.len < after.pos mine) × (after.pos mine ≤ after.len)
    pub applied : r ≡ o.apply_op op (after.result (after.pos mine - 1)).0

  module _ (n : ℕ) (ts : List (ℕ × Turn o)) (i : ℕ) (op : o.Op) (us : List (ℕ × Turn o)) where
    -- The system when the call starts, and at the end.
    abbrev pub calling : System o
    calling = run o n (at_rest o) ts

    abbrev pub called : System o
    called = run o n (step o n calling i (starts op)) us

    start-pc :
        IsReady o (calling.pc i) → Owns o calling.mem.alloc ((step o n calling i (starts op)).pc i)
    unfolding step start
    start-pc ready =
        let started = access-start n i op calling.mem (calling.pc i) ready in
        subst (Owns o calling.mem.alloc)
          (sym (update_self calling.pc i _ ∙ ap (λ (q : Mem o × Pc o). q.1) started)) refl

    start-mem :
        IsReady o (calling.pc i)
        → (step o n calling i (starts op)).mem ≡ (start o n i op calling.mem).0
    unfolding step
    start-mem ready =
        ap (λ (q : Mem o × Pc o). q.0) (access-start n i op calling.mem (calling.pc i) ready)

    own-op :
        IsReady o (calling.pc i) → (step o n calling i (starts op)).mem.op calling.mem.alloc ≡ op
    unfolding start
    own-op ready =
        ap (λ (m : Mem o). m.op calling.mem.alloc) (start-mem ready)
        ∙ update_self calling.mem.op calling.mem.alloc op

    own-alloc :
        IsReady o (calling.pc i) → calling.mem.alloc < (step o n calling i (starts op)).mem.alloc
    unfolding start
    own-alloc ready = let e = ap (λ (m : Mem o). m.alloc) (start-mem ready) in omega arith

    -- From an order at the start of the call.
    pub effect_from :
        (g1 : Order o) (mine : ℕ) (r : Result o)
        → IsLinked o g1 calling
        → IsReady o (calling.pc i)
        → All (IsQuiet o i) us
        → called.pc i ≡ returned mine r
        → (t : TakesEffect op calling called mine r) × (t.before ≡ g1)
    effect_from g1 mine r ok1 ready quiet back =
        let (g2, ok2, x2) = step-Continues o n g1 calling i (starts op) ok1 in
        let (g3, ok3, x3) = run-Continues o n g2 (step o n calling i (starts op)) us ok2 in
        let own : mine ≡ calling.mem.alloc = subst (Owns o calling.mem.alloc) back (
          run-Owns o n i calling.mem.alloc (step o n calling i (starts op)) us quiet
            (start-pc ready)) in
        let (in_list, res) = subst (PcOk o g3 called.mem i) back (ok3.local i) in
        let linked : g3.pos mine ≢ 0 = λ e. in_list (ok3.shared.seq_pos mine in_list ∙ e) in
        let x = prefix_trans o x2 x3 in
        let (log_pos, le) = ok3.shared.sequential.log-pos mine linked in
        let new : g1.pos mine ≡ 0 = rw own (ok1.shared.fresh calling.mem.alloc (omega arith)) in
        let further : g1.len < g3.pos mine = elim (x.pos_new mine new) [
          | inl out ↦ absurd (linked out)
          | inr lt ↦ lt
        ] in
        let some_len = ok1.shared.sequential.nonempty in
        let same_op : called.mem.op mine ≡ op =
          rw own (x3.op_stays calling.mem.alloc (own-alloc ready) ∙ own-op ready) in
        let p = g3.pos mine - 1 in
        let at_p : p + 1 ≡ g3.pos mine = omega arith in
        (
          record {
            before = g1;
            after = g3;
            before_shared = ok1.shared;
            after_shared = ok3.shared;
            before_answered =
                λ j. PcOk-Answered g1 calling.mem ok1.shared j (calling.pc j) (ok1.local j);
            after_answered =
                λ j. PcOk-Answered g3 called.mem ok3.shared j (called.pc j) (ok3.local j);
            extends = x;
            own_op = same_op;
            inside = (further, le);
            applied =
                res
                ∙ ap g3.result (sym at_p)
                ∙ ok3.shared.sequential.next_result p (omega arith) (omega arith)
                ∙ ap (λ (op' : o.Op). o.apply_op op' (g3.result p).0)
                    (ap called.mem.op (ap g3.log at_p ∙ log_pos) ∙ same_op);
          },
          refl,
        )

    -- A call that has returned has taken effect between its start and its return: participant `i`,
    -- with no call under way behind a schedule, starts `op`, starts no other call in the schedule
    -- that follows, and has returned `r` at its end. Then its operation stands behind all the nodes that
    -- were linked when it started, `r` is the result of applying `op` to the state before it, and the
    -- order of the linked nodes at the end continues that at the start.
    pub call-TakesEffect :
        (mine : ℕ) (r : Result o)
        → IsReady o (calling.pc i)
        → All (IsQuiet o i) us
        → called.pc i ≡ returned mine r
        → TakesEffect op calling called mine r
    call-TakesEffect mine r ready quiet back =
        let (g1, ok1, x1) =
          run-Continues o n (sentinel_order o) (at_rest o) ts (at_rest-IsLinked o) in
        (effect_from g1 mine r ok1 ready quiet back).0

  run-append :
      (n : ℕ) (s : System o) (ts us : List (ℕ × Turn o))
      → run o n s (ts ++ us) ≡ run o n (run o n s ts) us
  unfolding run
  run-append n s [] us = refl
  run-append n s ((i, t) ∷ ts) us = run-append n (step o n s i t) ts us

  module _ (n : ℕ) (ts vs : List (ℕ × Turn o)) (i : ℕ) (op : o.Op) (us : List (ℕ × Turn o)) where
    -- The order of the linked nodes respects real time: a call that had returned to participant `j`
    -- behind `ts`, whatever that participant has done in `vs` since, stands before a call that
    -- participant `i` starts behind `vs` and that has returned behind `us`; and both have the results at
    -- their positions.
    pub real_time_order :
        (mine : ℕ) (r : Result o) (j done : ℕ) (q : Result o)
        → (run o n (at_rest o) ts).pc j ≡ returned done q
        → IsReady o ((calling n (ts ++ vs) i op us).pc i)
        → All (IsQuiet o i) us
        → (called n (ts ++ vs) i op us).pc i ≡ returned mine r
        → (g : Order o) × Shared o g (called n (ts ++ vs) i op us).mem
          × (g.pos done ≢ 0)
          × (g.pos done < g.pos mine)
          × (q ≡ g.result (g.pos done))
          × (r ≡ g.result (g.pos mine))
    real_time_order mine r j done q back_j ready quiet back =
        let s0 = run o n (at_rest o) ts in
        let (g0, ok0, x0) =
          run-Continues o n (sentinel_order o) (at_rest o) ts (at_rest-IsLinked o) in
        let (g1, ok1, x1) = run-Continues o n g0 s0 vs ok0 in
        let at = sym (run-append n (at_rest o) ts vs) in
        let ok1' : IsLinked o g1 (calling n (ts ++ vs) i op us) = subst (IsLinked o g1) at ok1 in
        let (t, first) = effect_from n (ts ++ vs) i op us g1 mine r ok1' ready quiet back in
        let (linked, res) =
          subst (Answered g0) back_j
            (PcOk-Answered g0 s0.mem ok0.shared j (s0.pc j) (ok0.local j)) in
        let (linked', res') = subst (Answered t.after) back (t.after_answered i) in
        let x : Prefix o g1 (calling n (ts ++ vs) i op us).mem t.after
            (called n (ts ++ vs) i op us).mem =
          subst
            (λ g.
              Prefix o g (calling n (ts ++ vs) i op us).mem t.after
                (called n (ts ++ vs) i op us).mem)
            first t.extends in
        let near = x1.pos_stays done linked in
        let on : g1.pos done ≢ 0 = λ e. linked (sym near ∙ e) in
        let far = x.pos_stays done on in
        let le = (ok0.shared.sequential.log-pos done linked).1 in
        let le' = (ok1.shared.sequential.log-pos done on).1 in
        let lt : g1.len < t.after.pos mine =
          subst (λ (g : Order o). g.len < t.after.pos mine) first t.inside.0 in
        (
          t.after,
          t.after_shared,
          λ e. on (sym far ∙ e),
          omega arith,
          res
              ∙ sym (x1.result_stays (g0.pos done) le)
              ∙ ap g1.result (sym near)
              ∙ sym (x.result_stays (g1.pos done) le')
              ∙ ap t.after.result (sym far),
          res',
        )
