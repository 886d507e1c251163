-- ===== src/Wf/Deque/Tests.antt =====
-- wf/deque.go: a run of the wait-free deque, and its theorems at inputs.
use lockfree.Base.{ℕ, zero, suc, ◌≡◌, refl, none, some, List, [], ◌∷◌, ◌++◌}
use lockfree.Wf.Avl.{leaf, mk, taller, rebalance}
use lockfree.Wf.DequeTree.{tree_push_back, tree_pop_front}
use lockfree.Wf.Universal.{
  Object, Turn, registers, starts, scans, links, publishes, finishes, returned,
}
use lockfree.Wf.Universal.Access.{
  run, step, new, register, start, scan, link, publish, finish, access,
}
use lockfree.Wf.Universal.Linearizable.{at_rest}
use lockfree.Linear.{Event, tau, call, ret}
use lockfree.Linear.Spec.{Abstract, LinRun, unused}
use lockfree.Wf.Universal.Spec.{Spec, abstract, history}
use lockfree.Wf.Universal.Refine.{IsSafe}
use lockfree.Wf.Deque.{
  DequeOp, dq_push_front, dq_pop_back, dq_push_back, dq_pop_front, deque_apply_op, deque_object,
  deque_run, DequeResult,
}
use lockfree.Wf.Deque.Refine.{deque_spec, Holds, deque_run-LinRun}

abbrev deque : Object
deque = deque_object {A = ℕ} 0

abbrev goes : ℕ → ℕ → List (ℕ × Turn deque)
goes i zero = []
goes i (suc k) = (i, scans) ∷ (i, links) ∷ (i, publishes) ∷ (i, finishes) ∷ goes i k

-- One participant of two pushes 1 at the back, then 2, then pops at the front.
abbrev turns : List (ℕ × Turn deque)
turns =
    (0, registers)
      ∷ (0, registers)
      ∷ (0, registers)
      ∷ (0, registers)
      ∷ (0, starts (dq_push_back 1))
      ∷ goes 0 25
    ++ ((0, starts (dq_push_back 2)) ∷ goes 0 25)
    ++ ((0, starts dq_pop_front) ∷ goes 0 25)

popped_first :
    (deque_run {A = ℕ} 0 2 (at_rest deque) turns).pc 0 ≡ returned 3 (some (mk 2 leaf leaf), some 1)
unfolding run step access register start scan link publish finish at_rest new deque_apply_op
    tree_push_back tree_pop_front rebalance taller
popped_first = refl

abbrev spec : Spec deque
spec = deque_spec {A = ℕ} 0

abbrev shown : List (ℕ × Event (abstract spec)) → List (ℕ × Event (abstract spec))
shown [] = []
shown ((i, tau) ∷ es) = shown es
shown ((i, call op) ∷ es) = (i, call op) ∷ shown es
shown ((i, ret r) ∷ es) = (i, ret r) ∷ shown es

shown_calls :
    shown (history spec 2 (at_rest deque) turns)
    ≡ (0, call (dq_push_back 1))
      ∷ (0, ret none)
      ∷ (0, call (dq_push_back 2))
      ∷ (0, ret none)
      ∷ (0, call dq_pop_front)
      ∷ (0, ret (some 1))
      ∷ []
unfolding history step access register start scan link publish finish at_rest new deque_apply_op
    tree_push_back tree_pop_front rebalance taller
shown_calls = refl

deque_run-LinRun_example :
    (a : Abstract (abstract spec)) × LinRun
      (abstract spec)
      (unused (abstract spec) [])
      (history spec 2 (at_rest deque) turns)
      a
    × ((i : ℕ) → IsSafe spec ((deque_run {A = ℕ} 0 2 (at_rest deque) turns).pc i))
    × ((b : ℕ) (r : DequeResult {A = ℕ} 0)
        → (deque_run {A = ℕ} 0 2 (at_rest deque) turns).mem.res b ≡ some r
        → (xs : List ℕ) × Holds r.0 xs)
deque_run-LinRun_example = deque_run-LinRun {A = ℕ} 0 2 turns

-- Three pushes at the front and a pop at the back.
abbrev ops : List (DequeOp ℕ)
ops = dq_push_front 3 ∷ dq_push_front 2 ∷ dq_push_front 1 ∷ dq_pop_back ∷ []
