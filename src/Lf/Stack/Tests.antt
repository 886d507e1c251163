-- ===== src/Lf/Stack/Tests.antt =====
-- lf/stack.go: a run of Treiber's stack, and its theorems at it.
use lockfree.Base.{ℕ, ◌≡◌, ◌≢◌, refl, none, some, get_elem?, arith, List, [], ◌∷◌}
use lockfree.Lf.Stack.{
  Call, push_call, pop_call, access, turn, run, new_stack, length_of, lifo, stack_machine,
}
use lockfree.Lf.Stack.Progress.{run-progress}
use lockfree.Lf.Stack.Lifo.{Event, tau, pushed, took}
use lockfree.Lf.Stack.Refine.{at_rest}
use lockfree.Lf.Stack.Linearizable.{stack_at_rest, stack_run-LinRun}
use lockfree.Linear as Linear
use lockfree.Linear.Spec.{Abstract, LinRun, unused}

-- Two goroutines push 5 and 7 at once, so one of them has to retry; then the first one pops.
abbrev turns : List (ℕ × Call ℕ)
turns =
    (0, push_call 5)
    ∷ (1, push_call 7)
    ∷ (0, pop_call)
    ∷ (1, pop_call)
    ∷ (0, pop_call)
    ∷ (1, pop_call)
    ∷ (0, pop_call)
    ∷ (1, pop_call)
    ∷ (0, pop_call)
    ∷ (0, pop_call)
    ∷ (0, pop_call)
    ∷ (0, pop_call)
    ∷ (0, pop_call)
    ∷ (0, pop_call)
    ∷ []

events :
    ((run (at_rest 0) turns).0
      ≡ tau
        ∷ tau
        ∷ tau
        ∷ tau
        ∷ tau
        ∷ tau
        ∷ pushed 5
        ∷ tau
        ∷ tau
        ∷ tau
        ∷ tau
        ∷ tau
        ∷ took 5
        ∷ tau
        ∷ [])
    × (length_of (run (at_rest 0) turns).1.stack ≡ 0)
unfolding run turn access new_stack length_of
events = (refl, refl)

-- What the callers see, of the calls that start or return.
abbrev visible : List (ℕ × Linear.Event (lifo ℕ)) → List (ℕ × Linear.Event (lifo ℕ))
visible [] = []
visible ((i, Linear.tau) ∷ es) = visible es
visible ((i, Linear.call op) ∷ es) = (i, Linear.call op) ∷ visible es
visible ((i, Linear.ret r) ∷ es) = (i, Linear.ret r) ∷ visible es

visible_calls :
    visible (Linear.run (stack_machine ℕ) (stack_at_rest 0) turns).0
    ≡ (0, Linear.call (push_call 5))
      ∷ (1, Linear.call (push_call 7))
      ∷ (0, Linear.ret none)
      ∷ (0, Linear.call pop_call)
      ∷ (0, Linear.ret (some 5))
      ∷ []
unfolding Linear.run Linear.turn access new_stack
visible_calls = refl

stack_run-LinRun_example :
    (a : Abstract (lifo ℕ)) × LinRun
      (lifo ℕ)
      (unused (lifo ℕ) [])
      (Linear.run (stack_machine ℕ) (stack_at_rest 0) turns).0
      a
stack_run-LinRun_example = stack_run-LinRun 0 turns

run-progress_example :
    (k : ℕ) × (e : Event ℕ) × (get_elem? (run (at_rest 0) turns).0 k ≡ some e) × (e ≢ tau)
run-progress_example =
    run-progress turns (at_rest 0) 2
      (
        omega arith,
        (
          omega arith,
          (
            omega arith,
            (
              omega arith,
              (
                omega arith,
                (
                  omega arith,
                  (
                    omega arith,
                    (
                      omega arith,
                      (
                        omega arith,
                        (
                          omega arith,
                          (omega arith, (omega arith, (omega arith, (omega arith, tt)))),
                        ),
                      ),
                    ),
                  ),
                ),
              ),
            ),
          ),
        ),
      )
      (omega arith)
