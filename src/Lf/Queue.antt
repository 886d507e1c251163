-- ===== src/Lf/Queue.antt =====
-- lf/queue.go: the queue of Michael and Scott, a shared access at a time.
pub mod Order
pub mod Links
pub mod Stores
pub mod Linking
pub mod Enqueue
pub mod Dequeue
pub mod Refine
mod Tests
use lockfree.Base.{
  ℕ, ◌+◌, ◌-◌, ◌%◌, ◌^◌, Option, none, some, Bool, true, false, List, [], ◌∷◌, ◌++◌, ◌==◌,
  if◌then◌else◌, update,
}
use lockfree.Linear.{Sequential, Event, tau, call, ret, Machine}

-- The operations of the queue, and what they do to a list.
pub data QueueOp (A : Type 0) : Type 0 where
  enqueue : A → QueueOp A
  dequeue : QueueOp A

unfoldable pub fifo_apply_op : {A : Type 0} → QueueOp A → List A → List A × Option A
fifo_apply_op (enqueue v) xs = (xs ++ (v ∷ []), none)
fifo_apply_op dequeue [] = ([], none)
fifo_apply_op dequeue (x ∷ xs) = (xs, some x)

abbrev pub fifo : Type 0 → Sequential
fifo A = record { State = List A; Op = QueueOp A; Response = Option A; apply_op = fifo_apply_op }

-- `Queue[T]`, with the fields of its nodes (`directItem[T]`) by address. Addresses below `alloc` are
-- allocated.
pub record Queue (A : Type 0) : Type 0 where
  pub head : ℕ
  pub tail : ℕ
  pub len : ℕ
  pub next : ℕ → Option ℕ
  pub val : ℕ → A
  pub alloc : ℕ

-- Where a goroutine stands, with the locals that are live there.
pub data Pc (A : Type 0) : Type 0 where
  idle : Pc A
  -- in `Enqueue`, at the top of the loop and behind each load
  enq : (i : ℕ) → Pc A
  enq_tail : (i last : ℕ) → Pc A
  enq_next : (i last : ℕ) (lastnext : Option ℕ) → Pc A
  -- before each compare-and-swap, and the store to `len`
  enq_link : (i last : ℕ) → Pc A
  enq_swing : (i last : ℕ) → Pc A
  enq_help : (i last lastnext : ℕ) → Pc A
  enq_len : Pc A
  -- in `Dequeue`, likewise
  deq : Pc A
  deq_head : (first : ℕ) → Pc A
  deq_tail : (first last : ℕ) → Pc A
  deq_next : (first last : ℕ) (firstnext : Option ℕ) → Pc A
  deq_help : (last firstnext : ℕ) → Pc A
  deq_swing : (first firstnext : ℕ) (v : A) → Pc A
  deq_len : (v : A) → Pc A
  -- about to return
  returning : Option A → Pc A
  nil_dereference : Pc A

-- `p.CompareAndSwap(nil, i)`; `p.CompareAndSwap(old, new)` on `head` or `tail`.
abbrev pub is_nil : Option ℕ → Bool
is_nil none = true
is_nil (some a) = false

abbrev pub cas : ℕ → ℕ → ℕ → ℕ
cas p old new = if p == old then new else p

module _ {A : Type 0} where
  -- `NewQueue`: the sentinel is at address 0; `blank` is the zero value of `T`.
  unfoldable pub new_queue : A → Queue A
  new_queue blank = record {
    head = 0;
    tail = 0;
    len = 0;
    next = λ a. none;
    val = λ a. blank;
    alloc = 1;
  }

  -- `Length`.
  unfoldable pub length_of : Queue A → ℕ
  length_of q = q.len

  -- The tests of `Enqueue` behind its second load of `tail`.
  abbrev pub enq_check : (i last : ℕ) → Option ℕ → Bool → Pc A
  enq_check i last nx false = enq i
  enq_check i last none true = enq_link i last
  enq_check i last (some b) true = enq_help i last b

  -- The tests of `Dequeue` behind its second load of `head`. `v` of a node is set before the node is
  -- linked and never again, so it may be read at once.
  abbrev pub deq_check : (ℕ → A) → (first last : ℕ) → Option ℕ → Bool → Bool → Pc A
  deq_check val first last nx false same = deq
  deq_check val first last none true true = returning none
  deq_check val first last (some b) true true = deq_help last b
  deq_check val first last none true false = nil_dereference
  deq_check val first last (some b) true false = deq_swing first b (val b)

  -- `Enqueue(v)` and `Dequeue()` start; `item` is the node that `Enqueue` makes.
  unfoldable pub start : QueueOp A → Queue A → Queue A × Pc A × Event (fifo A)
  start (enqueue v) q = (
    record q {
      val = update q.val q.alloc v;
      next = update q.next q.alloc none;
      alloc = q.alloc + 1;
    },
    enq q.alloc,
    call (enqueue v),
  )
  start dequeue q = (q, deq, call dequeue)

  unfoldable pub access_enqueue : Queue A → Pc A → Queue A × Pc A × Event (fifo A)
  access_enqueue q (enq i) = (q, enq_tail i q.tail, tau)
  access_enqueue q (enq_tail i last) = (q, enq_next i last (q.next last), tau)
  access_enqueue q (enq_next i last nx) = (q, enq_check i last nx (last == q.tail), tau)
  access_enqueue q (enq_link i last) =
      if is_nil (q.next last)
      then (record q { next = update q.next last (some i) }, enq_swing i last, tau)
      else (q, enq i, tau)
  access_enqueue q (enq_swing i last) = (record q { tail = cas q.tail last i }, enq_len, tau)
  access_enqueue q (enq_help i last b) = (record q { tail = cas q.tail last b }, enq i, tau)
  access_enqueue q enq_len = (record q { len = (q.len + 1) % 2 ^ 64 }, returning none, tau)
  access_enqueue q p = (q, p, tau)

  unfoldable pub access_dequeue : Queue A → Pc A → Queue A × Pc A × Event (fifo A)
  access_dequeue q deq = (q, deq_head q.head, tau)
  access_dequeue q (deq_head first) = (q, deq_tail first q.tail, tau)
  access_dequeue q (deq_tail first last) = (q, deq_next first last (q.next first), tau)
  access_dequeue q (deq_next first last nx) =
      (q, deq_check q.val first last nx (first == q.head) (first == last), tau)
  access_dequeue q (deq_help last b) = (record q { tail = cas q.tail last b }, deq, tau)
  access_dequeue q (deq_swing first b v) =
      if q.head == first then (record q { head = b }, deq_len v, tau) else (q, deq, tau)
  access_dequeue q (deq_len v) =
      (record q { len = (q.len + (2 ^ 64 - 1)) % 2 ^ 64 }, returning (some v), tau)
  access_dequeue q p = (q, p, tau)

  -- The next access of a goroutine; from `idle` it starts the call that it is given.
  unfoldable pub access : ℕ → QueueOp A → Queue A → Pc A → Queue A × Pc A × Event (fifo A)
  access tid op q idle = start op q
  access tid op q (returning r) = (q, idle, ret r)
  access tid op q (enq i) = access_enqueue q (enq i)
  access tid op q (enq_tail i last) = access_enqueue q (enq_tail i last)
  access tid op q (enq_next i last nx) = access_enqueue q (enq_next i last nx)
  access tid op q (enq_link i last) = access_enqueue q (enq_link i last)
  access tid op q (enq_swing i last) = access_enqueue q (enq_swing i last)
  access tid op q (enq_help i last b) = access_enqueue q (enq_help i last b)
  access tid op q enq_len = access_enqueue q enq_len
  access tid op q p = access_dequeue q p

abbrev pub queue_machine : (A : Type 0) → Machine (fifo A)
queue_machine A = record { Mem = Queue A; Pc = Pc A; access = access }
