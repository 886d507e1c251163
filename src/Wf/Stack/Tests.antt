-- ===== src/Wf/Stack/Tests.antt =====
-- wf/stack.go: runs of the wait-free stack, and the theorems on the construction at them.
use lockfree.Base.{ℕ, zero, suc, ◌≡◌, ◌≢◌, ◌<◌, refl, ap, none, some, List, [], ◌∷◌, ◌++◌, All}
use lockfree.Wf.Universal.{
  Object, Result, Turn, registers, starts, scans, links, publishes, finishes, returned,
}
use lockfree.Wf.Universal.Access.{
  run, step, new, register, start, scan, link, publish, finish, access,
}
use lockfree.Wf.Universal.History.{Order, Shared}
use lockfree.Wf.Universal.Linearizable.{at_rest}
use lockfree.Linear.Spec.{Abstract, LinRun, unused}
use lockfree.Wf.Universal.Spec.{Spec, abstract, history}
use lockfree.Wf.Universal.Refine.{IsSafe, universal_run-LinRun}
use lockfree.Wf.Universal.Calls.{IsQuiet}
use lockfree.Wf.Universal.Results.{TakesEffect, call-TakesEffect, real_time_order, calling, called}
use lockfree.Wf.Stack.{stack_apply_op, stack_push, stack_pop, stack_object, stack_run}

abbrev stack : Object
stack = stack_object {A = ℕ} 0

-- Turns in which participant `i` gets on wherever it stands, `k` times.
abbrev goes : ℕ → ℕ → List (ℕ × Turn stack)
goes i zero = []
goes i (suc k) = (i, scans) ∷ (i, links) ∷ (i, publishes) ∷ (i, finishes) ∷ goes i k

-- The same of two participants, in turns.
abbrev go_both : ℕ → List (ℕ × Turn stack)
go_both zero = []
go_both (suc k) =
    (0, scans)
    ∷ (1, scans)
    ∷ (1, links)
    ∷ (0, links)
    ∷ (0, publishes)
    ∷ (1, publishes)
    ∷ (1, finishes)
    ∷ (0, finishes)
    ∷ go_both k

abbrev register_both : List (ℕ × Turn stack)
register_both =
    (0, registers)
    ∷ (1, registers)
    ∷ (0, registers)
    ∷ (1, registers)
    ∷ (1, registers)
    ∷ (0, registers)
    ∷ (0, registers)
    ∷ (1, registers)
    ∷ []

-- Both register; participant 1 pushes 5 and returns.
abbrev pushed : List (ℕ × Turn stack)
pushed = register_both ++ ((1, starts (stack_push 5)) ∷ goes 1 23)

-- Then, with a push of 7 by participant 1 under way, participant 0 starts a pop.
abbrev pushing : List (ℕ × Turn stack)
pushing = pushed ++ ((1, starts (stack_push 7)) ∷ goes 1 6)

pushed_pc : (stack_run {A = ℕ} 0 2 (at_rest stack) pushed).pc 1 ≡ returned 1 ((5 ∷ []), none)
unfolding run step access register start scan link publish finish at_rest new stack_apply_op
pushed_pc = refl

abbrev pops : List (ℕ × Turn stack)
pops = go_both 40

popped : (called stack 2 pushing 0 stack_pop pops).pc 0 ≡ returned 3 ((5 ∷ []), some 7)
unfolding run step access register start scan link publish finish at_rest new stack_apply_op
popped = refl

go_both-IsQuiet : (k : ℕ) → All (IsQuiet stack 0) (go_both k)
go_both-IsQuiet zero = tt
go_both-IsQuiet (suc k) = (tt, (tt, (tt, (tt, (tt, (tt, (tt, (tt, go_both-IsQuiet k))))))))

call-TakesEffect_example :
    TakesEffect stack stack_pop
      (calling stack 2 pushing 0 stack_pop pops)
      (called stack 2 pushing 0 stack_pop pops)
      3
      ((5 ∷ []), some 7)
unfolding run step access register start scan link publish finish at_rest new stack_apply_op
call-TakesEffect_example =
    call-TakesEffect stack 2 pushing 0 stack_pop pops 3 ((5 ∷ []), some 7) tt (go_both-IsQuiet 40)
      popped

-- The push of 5 by participant 1 had returned, and its push of 7 was under way, when participant 0
-- started its pop.
real_time_order_example :
    (g : Order stack) × Shared stack g (called stack 2 pushing 0 stack_pop pops).mem
    × (g.pos 1 ≢ 0)
    × (g.pos 1 < g.pos 3)
    × (((5 ∷ []), none) ≡ g.result (g.pos 1))
    × (((5 ∷ []), some 7) ≡ g.result (g.pos 3))
unfolding run step access register start scan link publish finish at_rest new stack_apply_op
real_time_order_example =
    real_time_order stack 2 pushed ((1, starts (stack_push 7)) ∷ goes 1 6) 0 stack_pop pops 3
      ((5 ∷ []), some 7) 1 1 ((5 ∷ []), none) pushed_pc tt (go_both-IsQuiet 40) popped

-- The stack stands for itself.
abbrev stack_spec : Spec stack
stack_spec = record {
  Abstract = List ℕ;
  start = [];
  apply_op = stack_apply_op;
  Relates = λ s a. s ≡ a;
  start-Relates = refl;
  apply-Relates = λ op s a same. (
    ap (λ (x : List ℕ). (stack_apply_op op x).0) same,
    ap (λ (x : List ℕ). (stack_apply_op op x).1) same,
  );
}

universal_run-LinRun_example :
    (a : Abstract (abstract stack_spec)) × LinRun
      (abstract stack_spec)
      (unused (abstract stack_spec) [])
      (history stack_spec 2 (at_rest stack) (pushing ++ pops))
      a
    × ((i : ℕ) → IsSafe stack_spec ((stack_run {A = ℕ} 0 2 (at_rest stack) (pushing ++ pops)).pc i))
    × ((b : ℕ) (r : Result stack)
        → (stack_run {A = ℕ} 0 2 (at_rest stack) (pushing ++ pops)).mem.res b ≡ some r
        → (x : List ℕ) × (r.0 ≡ x))
universal_run-LinRun_example = universal_run-LinRun stack_spec 2 (pushing ++ pops)
