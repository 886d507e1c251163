-- ===== src/Lf/Stack/Linearizable.antt =====
-- lf/stack.go: the calls of `Push` and `Pop` are those of an abstract stack.
use mathlib.Core.Path.{subst}
use native.Mathlib.Decide.{ℕ_discrete}
use lockfree.Base.{
  ℕ, ◌<◌, ◌≡◌, inl, inr, refl, sym, ap, ◌∙◌, Option, none, some, Option-cases, Bool, Bool-cases,
  false, List, [], ◌∷◌, update, update_self, update_ne, arith,
}
use lockfree.Linear as Linear
use lockfree.Linear.Spec.{
  Status, Waits, Answers, out, called, done, Abstract, LinStep, LinRun, end, step, unused,
}
use lockfree.Linear.Simulate.{Local, stays, commits, starts, answers, Local-LinStep}
use lockfree.Lf.Stack as Stacks
use lockfree.Lf.Stack.{
  Stack, Call, push_call, pop_call, Pc, idle, pushing, push_loaded, push_stored, push_done, popping,
  pop_empty, pop_loaded, pop_next, pop_done, same_pointer, look, access, new_stack, lifo_apply_op,
  lifo, shown, stack_machine, System,
}
use lockfree.Lf.Stack.Lifo.{
  Event, tau, pushed, took, found_empty, LifoStep, inside, add, take, nothing,
}
use lockfree.Lf.Stack.Inv.{PcOk}
use lockfree.Lf.Stack.Refine.{Inv, turn-LifoStep, at_rest-Inv}

module _ {A : Type 0} where
  -- Where the call of a goroutine at `p` stands: a push has taken effect once its node is linked, a pop
  -- once it has taken one off or has found none.
  abbrev StatusOk : Stack A → Pc A → Status (lifo A) → Type 0
  StatusOk s (idle r) t = t ≡ out
  StatusOk s (pushing item) t = t ≡ called (push_call (s.val item))
  StatusOk s (push_loaded item top) t = t ≡ called (push_call (s.val item))
  StatusOk s (push_stored item top) t = t ≡ called (push_call (s.val item))
  StatusOk s push_done t = t ≡ done none
  StatusOk s popping t = t ≡ called pop_call
  StatusOk s pop_empty t = t ≡ done none
  StatusOk s (pop_loaded a) t = t ≡ called pop_call
  StatusOk s (pop_next a nx) t = t ≡ called pop_call
  StatusOk s (pop_done v) t = t ≡ done (some v)

  inside-eq : {q r : List A} → LifoStep q tau r → q ≡ r
  inside-eq (inside e) = e

  add-eq : {q r : List A} (x : A) → LifoStep q (pushed x) r → r ≡ x ∷ q
  add-eq x (add y e) = e

  take-eq : {q r : List A} (x : A) → LifoStep q (took x) r → q ≡ x ∷ r
  take-eq x (take y e) = e

  nothing-eq : {q r : List A} → LifoStep q found_empty r → (q ≡ []) × (q ≡ r)
  nothing-eq (nothing e e') = (e, e')

  called-Waits : {t : Status (lifo A)} (c : Call A) → t ≡ called c → Waits (lifo A) t c
  called-Waits c e = subst (λ u. Waits (lifo A) u c) (sym e) refl

  done-Answers : {t : Status (lifo A)} (r : Option A) → t ≡ done r → Answers (lifo A) t r
  done-Answers r e = subst (λ u. Answers (lifo A) u r) (sym e) refl

  -- An access that changes the elements from `xs` to `ys`, as the call of its goroutine may.
  abbrev Moves : Call A → Stack A → Pc A → Status (lifo A) → Stack A × Pc A × Event A → Type 0
  Moves c s p t (s', q, e) =
      (xs ys : List A)
      → LifoStep xs e ys
      → (t' : Status (lifo A)) × StatusOk s' q t' × Local xs t ys t' (shown c p q)

  access-Moves :
      (c : Call A) (s : Stack A) (p : Pc A) (t : Status (lifo A))
      → StatusOk s p t
      → Moves c s p t (access c s p)
  unfolding access lifo_apply_op
  access-Moves (push_call v) s (idle r) t ok = λ xs ys ev. (
    called (push_call v),
    ap (λ (x : A). called (push_call x)) (sym (update_self s.val s.alloc v)),
    starts (push_call v) refl ok (inside-eq ev) refl,
  )
  access-Moves pop_call s (idle r) t ok =
      λ xs ys ev. (called pop_call, refl, starts pop_call refl ok (inside-eq ev) refl)
  access-Moves c s (pushing item) t ok = λ xs ys ev. (t, ok, stays refl (inside-eq ev) refl)
  access-Moves c s (push_loaded item top) t ok = λ xs ys ev. (t, ok, stays refl (inside-eq ev) refl)
  access-Moves c s (push_stored item top) t ok = elim (Bool-cases (same_pointer s.top top)) [
    | inl same ↦ rw same (λ xs ys ev. (
      done none,
      refl,
      commits (push_call (s.val item)) none refl (called-Waits (push_call (s.val item)) ok)
          (λ k. (sym (add-eq (s.val item) ev) k, none)) refl,
    ))
    | inr moved ↦ rw moved (λ xs ys ev. (t, ok, stays refl (inside-eq ev) refl))
  ]
  access-Moves c s push_done t ok =
      λ xs ys ev. (out, refl, answers none refl (done-Answers none ok) (inside-eq ev) refl)
  access-Moves c s popping t ok = elim (Option-cases s.top) [
    | inl nil ↦ subst (Moves c s popping t) (sym (ap (look s) nil)) (λ xs ys ev.
        let (empty, same) = nothing-eq ev in
        (
          done none,
          refl,
          commits pop_call none refl (called-Waits pop_call ok)
              (subst (λ zs. lifo_apply_op pop_call zs ≡ (ys, none)) (sym empty)
                (λ k. ((sym empty ∙ same) k, none)))
              refl,
        ))
    | inr (a, there) ↦
        subst (Moves c s popping t) (sym (ap (look s) there))
          (λ xs ys ev. (t, ok, stays refl (inside-eq ev) refl))
  ]
  access-Moves c s pop_empty t ok =
      λ xs ys ev. (out, refl, answers none refl (done-Answers none ok) (inside-eq ev) refl)
  access-Moves c s (pop_loaded a) t ok = λ xs ys ev. (t, ok, stays refl (inside-eq ev) refl)
  access-Moves c s (pop_next a nx) t ok = elim (Bool-cases (same_pointer s.top (some a))) [
    | inl same ↦ rw same (λ xs ys ev. (
      done (some (s.val a)),
      refl,
      commits pop_call (some (s.val a)) refl (called-Waits pop_call ok)
          (ap (λ (zs : List A). lifo_apply_op pop_call zs) (take-eq (s.val a) ev)) refl,
    ))
    | inr moved ↦ rw moved (λ xs ys ev. (t, ok, stays refl (inside-eq ev) refl))
  ]
  access-Moves c s (pop_done v) t ok =
      λ xs ys ev. (out, refl, answers (some v) refl (done-Answers (some v) ok) (inside-eq ev) refl)

  -- A node's value is set before any goroutine has its address, and never again.
  val_stays :
      (c : Call A) (s : Stack A) (p : Pc A) (b : ℕ) → b < s.alloc → (access c s p).0.val b ≡ s.val b
  unfolding access
  val_stays (push_call v) s (idle r) b lt = update_ne s.val v (λ z. omega arith)
  val_stays pop_call s (idle r) b lt = refl
  val_stays c s (pushing item) b lt = refl
  val_stays c s (push_loaded item top) b lt = refl
  val_stays c s (push_stored item top) b lt = elim (Bool-cases (same_pointer s.top top)) [
    | inl same ↦ rw same refl
    | inr moved ↦ rw moved refl
  ]
  val_stays c s push_done b lt = refl
  val_stays c s popping b lt = elim (Option-cases s.top) [
    | inl nil ↦
        subst (λ (r : Stack A × Pc A × Event A). r.0.val b ≡ s.val b) (sym (ap (look s) nil)) refl
    | inr (a, there) ↦
        subst (λ (r : Stack A × Pc A × Event A). r.0.val b ≡ s.val b) (sym (ap (look s) there)) refl
  ]
  val_stays c s pop_empty b lt = refl
  val_stays c s (pop_loaded a) b lt = refl
  val_stays c s (pop_next a nx) b lt = elim (Bool-cases (same_pointer s.top (some a))) [
    | inl same ↦ rw same refl
    | inr moved ↦ rw moved refl
  ]
  val_stays c s (pop_done v) b lt = refl

  StatusOk-stays :
      (s s' : Stack A) (linked : ℕ → Bool) (q : Pc A) (t : Status (lifo A))
      → ((b : ℕ) → b < s.alloc → s'.val b ≡ s.val b)
      → PcOk s linked q
      → StatusOk s q t
      → StatusOk s' q t
  StatusOk-stays s s' linked (pushing item) t kept ok h =
      h ∙ ap (λ (x : A). called (push_call x)) (sym (kept item ok.0))
  StatusOk-stays s s' linked (push_loaded item top) t kept ok h =
      h ∙ ap (λ (x : A). called (push_call x)) (sym (kept item ok.0))
  StatusOk-stays s s' linked (push_stored item top) t kept ok h =
      h ∙ ap (λ (x : A). called (push_call x)) (sym (kept item ok.0.0))
  StatusOk-stays s s' linked q t kept ok h = h

  -- The goroutines over the stack, without what they show.
  abbrev accesses : Linear.System (stack_machine A) → System A
  accesses s = record { stack = s.mem; pc = s.pc }

  record Together (s : Linear.System (stack_machine A)) (linked : ℕ → Bool) (a : Abstract (lifo A))
      : Type 0 where
    pub inv : Inv (accesses s) linked a.state
    pub status : (i : ℕ) → StatusOk s.mem (s.pc i) (a.status i)

  turn-LinStep :
      (s : Linear.System (stack_machine A)) (linked : ℕ → Bool) (a : Abstract (lifo A)) (i : ℕ)
      (c : Call A)
      → Together s linked a
      → (linked' : ℕ → Bool) × (a' : Abstract (lifo A)) × Together
          (Linear.turn (stack_machine A) s i c).0
          linked'
          a'
        × LinStep (lifo A) a i a' (Linear.turn (stack_machine A) s i c).1
  unfolding Linear.turn Stacks.turn
  turn-LinStep s linked a i c ok =
      let (linked', ys, inv', ev) = turn-LifoStep (accesses s) linked a.state i c ok.inv in
      let (t', own, local) =
        access-Moves c s.mem (s.pc i) (a.status i) (ok.status i) a.state ys ev in
      let m' = (access c s.mem (s.pc i)).0 in
      let q = (access c s.mem (s.pc i)).1 in
      (
        linked',
        record { state = ys; status = update a.status i t' },
        record {
          inv = inv';
          status = λ j. elim (ℕ_discrete i j) [
            | yes same ↦
                subst (λ k. StatusOk m' (update s.pc i q k) (update a.status i t' k)) same
                  (rw (update_self s.pc i q, update_self a.status i t') own)
            | no ne ↦
                rw (update_ne s.pc q ne, update_ne a.status t' ne)
                  (StatusOk-stays s.mem m' linked (s.pc j) (a.status j) (val_stays c s.mem (s.pc i))
                    (ok.inv.local j) (ok.status j))
          ];
        },
        Local-LinStep a i ys t' (shown c (s.pc i) q) (update a.status i t') local (λ j. inl refl),
      )

  run-LinRun :
      (ts : List (ℕ × Call A)) (s : Linear.System (stack_machine A)) (linked : ℕ → Bool)
      (a : Abstract (lifo A))
      → Together s linked a
      → (a' : Abstract (lifo A)) × LinRun (lifo A) a (Linear.run (stack_machine A) s ts).0 a'
  unfolding Linear.run
  run-LinRun [] s linked a ok = (a, end)
  run-LinRun ((i, c) ∷ ts) s linked a ok =
      let (linked1, a1, ok1, first) = turn-LinStep s linked a i c ok in
      let (a2, rest) = run-LinRun ts (Linear.turn (stack_machine A) s i c).0 linked1 a1 ok1 in
      (a2, step first rest)

  -- A new stack, on which nobody has called yet; `blank` is the zero value of `T`.
  abbrev pub stack_at_rest : A → Linear.System (stack_machine A)
  stack_at_rest blank = record { mem = new_stack blank; pc = λ i. idle none }

  -- Under every schedule of any number of goroutines, the calls of `Push` and `Pop` on a new stack start
  -- and return as those of an abstract stack do in which each call takes effect at one moment between
  -- its start and its return: a push puts the value that it was called with on top, a pop returns the
  -- value that it takes from there, and empty is returned only by a pop that has found it so.
  pub stack_run-LinRun :
      (blank : A) (ts : List (ℕ × Call A))
      → (a : Abstract (lifo A)) × LinRun
          (lifo A)
          (unused (lifo A) [])
          (Linear.run (stack_machine A) (stack_at_rest blank) ts).0
          a
  stack_run-LinRun blank ts =
      run-LinRun ts (stack_at_rest blank) (λ b. false) (unused (lifo A) [])
        (record { inv = at_rest-Inv blank; status = λ i. refl })
