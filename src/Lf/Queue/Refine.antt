-- ===== src/Lf/Queue/Refine.antt =====
-- lf/queue.go: the queue is a linearizable FIFO.
use mathlib.Core.Path.{subst}
use lockfree.Base.{ℕ, ◌≡◌, inl, inr, refl, sym, Option, List, [], arith, update}
use lockfree.Linear.{call, ret, System, run}
use lockfree.Linear.Spec.{Status, out, called, Answers, Abstract, LinRun, unused}
use lockfree.Linear.Simulate.{starts, answers, Simulation, Together, run-LinRun}
use lockfree.Lf.Queue.{
  QueueOp, enqueue, dequeue, fifo, Queue, Pc, idle, enq, enq_tail, enq_next, enq_link, enq_swing,
  enq_help, enq_len, deq, returning, nil_dereference, start, access, new_queue, queue_machine,
}
use lockfree.Lf.Queue.Order.{Order, Inv, PcOk}
use lockfree.Lf.Queue.Links.{Outcome}
use lockfree.Lf.Queue.Stores.{quiet, alloc-Outcome}
use lockfree.Lf.Queue.Enqueue.{enqueue-Outcome}
use lockfree.Lf.Queue.Dequeue.{dequeue-Outcome}

module _ {A : Type 0} (i : ℕ) (q : Queue A) (g : Order) (xs : List A) (inv : Inv q g xs) where
  start-Outcome : (op : QueueOp A) (t : Status (fifo A)) → t ≡ out → Outcome i q g xs t (start op q)
  unfolding start
  start-Outcome (enqueue v) t free = alloc-Outcome i q g xs inv v t free
  start-Outcome dequeue t free =
      quiet i q g xs inv q.len deq t (called dequeue) (call dequeue) refl
        (starts dequeue refl free refl refl)

  answer : (r : Option A) (t : Status (fifo A)) → PcOk q g i (returning r) t → Answers (fifo A) t r
  answer r t (inl e) = subst (λ u. Answers (fifo A) u r) (sym e) refl
  answer r t (inr (e, e')) = subst (λ u. Answers (fifo A) u r) (sym e') (sym e)

  return-Outcome :
      (r : Option A) (t : Status (fifo A))
      → PcOk q g i (returning r) t
      → Outcome i q g xs t (q, idle, ret r)
  return-Outcome r t ok =
      quiet i q g xs inv q.len idle t out (ret r) refl (answers r refl (answer r t ok) refl refl)

  pub access-Outcome :
      (op : QueueOp A) (p : Pc A) (t : Status (fifo A))
      → PcOk q g i p t
      → Outcome i q g xs t (access i op q p)
  unfolding access
  access-Outcome op idle t ok = start-Outcome op t ok
  access-Outcome op (returning r) t ok = return-Outcome r t ok
  access-Outcome op (enq a) t ok = enqueue-Outcome i q g xs inv (enq a) t ok
  access-Outcome op (enq_tail a last) t ok = enqueue-Outcome i q g xs inv (enq_tail a last) t ok
  access-Outcome op (enq_next a last nx) t ok =
      enqueue-Outcome i q g xs inv (enq_next a last nx) t ok
  access-Outcome op (enq_link a last) t ok = enqueue-Outcome i q g xs inv (enq_link a last) t ok
  access-Outcome op (enq_swing a last) t ok = enqueue-Outcome i q g xs inv (enq_swing a last) t ok
  access-Outcome op (enq_help a last b) t ok = enqueue-Outcome i q g xs inv (enq_help a last b) t ok
  access-Outcome op enq_len t ok = enqueue-Outcome i q g xs inv enq_len t ok
  access-Outcome op p t ok = dequeue-Outcome i q g xs inv p t ok

module _ (A : Type 0) where
  abbrev pub queue_simulation : Simulation (queue_machine A)
  queue_simulation = record {
    Ghost = Order;
    Inv = Inv;
    PcOk = PcOk;
    moves = λ i op q g xs p t inv ok.
        let (g', ys, t', inv', own, others, local) = access-Outcome i q g xs inv op p t ok in
        (g', ys, t', inv', own, (λ j r u ne k. (u, inl refl, others j r u ne k)), local);
  }

-- A new queue, on which nobody has called yet.
abbrev pub queue_at_rest : {A : Type 0} → A → System (queue_machine A)
queue_at_rest blank = record { mem = new_queue blank; pc = λ i. idle }

-- The sentinel alone, at position 1.
abbrev pub sentinel_order : Order
sentinel_order = record { pos = update (λ a. 0) 0 1; log = λ p. 0; count = 1; owner = λ a. 0 }

pub new_queue-Together :
    {A : Type 0} (blank : A)
    → Together
        (queue_machine A)
        (queue_simulation A)
        (queue_at_rest blank)
        sentinel_order
        (unused (fifo A) [])
unfolding new_queue
new_queue-Together blank = record {
  inv = record {
    log-pos = λ a h. ground arith;
    pos-log = λ p lo hi. ground arith;
    fresh = λ a h. ground arith;
    outside = λ a h. refl;
    next_pos = λ a b h e. cc;
    next_nil = λ a h e. ground arith;
    head_in = ground arith;
    head_tail = omega arith;
    held = (0, ground arith, refl);
  };
  local = λ i. refl;
}

-- A goroutine that has not panicked.
abbrev pub IsSafe : {A : Type 0} → Pc A → Type 0
IsSafe nil_dereference = ⊥
IsSafe p = Unit

PcOk-IsSafe :
    {A : Type 0} (q : Queue A) (g : Order) (j : ℕ) (p : Pc A) (t : Status (fifo A))
    → PcOk q g j p t
    → IsSafe p
PcOk-IsSafe q g j nil_dereference t ok = ok
PcOk-IsSafe q g j p t ok = tt

-- Under every schedule of any number of goroutines, the calls of `Enqueue` and `Dequeue` on a new
-- queue start and return as those of a FIFO do in which each call takes effect at one moment between
-- its start and its return; an empty queue is reported only by a call that has seen it empty.
-- Nothing dereferences a nil pointer.
pub queue_run-LinRun :
    {A : Type 0} (blank : A) (ts : List (ℕ × QueueOp A))
    → (a : Abstract (fifo A)) × LinRun
        (fifo A)
        (unused (fifo A) [])
        (run (queue_machine A) (queue_at_rest blank) ts).0
        a
      × ((i : ℕ) → IsSafe ((run (queue_machine A) (queue_at_rest blank) ts).1.pc i))
queue_run-LinRun {A} blank ts =
    let (g, a, ok, lin) =
      run-LinRun (queue_machine A) (queue_simulation A) ts (queue_at_rest blank) sentinel_order
        (unused (fifo A) []) (new_queue-Together blank) in
    (
      a,
      lin,
      λ i.
          PcOk-IsSafe (run (queue_machine A) (queue_at_rest blank) ts).1.mem g i _ (a.status i)
            (ok.local i),
    )
