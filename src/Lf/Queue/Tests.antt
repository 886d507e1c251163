-- ===== src/Lf/Queue/Tests.antt =====
-- lf/queue.go: a run of the queue, and its theorem at it.
use lockfree.Base.{ℕ, zero, suc, ◌≡◌, refl, none, some, List, [], ◌∷◌, ◌++◌}
use lockfree.Linear.{Event, tau, call, ret, run, turn}
use lockfree.Linear.Spec.{Abstract, LinRun, unused}
use lockfree.Lf.Queue.{
  QueueOp, enqueue, dequeue, fifo, queue_machine, access, access_enqueue, access_dequeue, start,
  new_queue,
}
use lockfree.Lf.Queue.Refine.{queue_at_rest, queue_run-LinRun, IsSafe}

-- `k` turns of goroutine `i`, and `k` turns of both of the first two.
abbrev goes : ℕ → ℕ → List (ℕ × QueueOp ℕ)
goes i zero = []
goes i (suc k) = (i, dequeue) ∷ goes i k

abbrev go_both : ℕ → List (ℕ × QueueOp ℕ)
go_both zero = []
go_both (suc k) = (0, dequeue) ∷ (1, dequeue) ∷ go_both k

-- Two goroutines enqueue 5 and 7 at once; the one that comes second has to help and to retry. Then a
-- third one finds 5.
abbrev turns : List (ℕ × QueueOp ℕ)
turns = (0, enqueue 5) ∷ (1, enqueue 7) ∷ go_both 4 ++ (goes 1 11 ++ (goes 0 3 ++ goes 2 8))

abbrev shown : List (ℕ × Event (fifo ℕ)) → List (ℕ × Event (fifo ℕ))
shown [] = []
shown ((i, tau) ∷ es) = shown es
shown ((i, call op) ∷ es) = (i, call op) ∷ shown es
shown ((i, ret r) ∷ es) = (i, ret r) ∷ shown es

shown_events :
    shown (run (queue_machine ℕ) (queue_at_rest 0) turns).0
    ≡ (0, call (enqueue 5))
      ∷ (1, call (enqueue 7))
      ∷ (1, ret none)
      ∷ (0, ret none)
      ∷ (2, call dequeue)
      ∷ (2, ret (some 5))
      ∷ []
unfolding run turn access access_enqueue access_dequeue start new_queue
shown_events = refl

queue_run-LinRun_example :
    (a : Abstract (fifo ℕ)) × LinRun
      (fifo ℕ)
      (unused (fifo ℕ) [])
      (run (queue_machine ℕ) (queue_at_rest 0) turns).0
      a
    × ((i : ℕ) → IsSafe ((run (queue_machine ℕ) (queue_at_rest 0) turns).1.pc i))
queue_run-LinRun_example = queue_run-LinRun 0 turns
