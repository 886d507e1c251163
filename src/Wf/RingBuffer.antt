-- ===== src/Wf/RingBuffer.antt =====
-- wf/ringbuffer.go: the single-producer/single-consumer ring buffer, a shared access at a time.
pub mod Capacity
pub mod Fifo
pub mod Window
pub mod Inv
pub mod Slots
pub mod Produce
pub mod Consume
pub mod Refine
mod Tests
use Prim.Native.Nat.{bit_and}
use lockfree.Base.{
  ℕ, ◌+◌, ◌-◌, ◌*◌, ◌%◌, ◌^◌, Bool, Option, none, some, List, [], ◌∷◌, ltb, leb, ◌==◌,
  if◌then◌else◌, length, set, get_or, replicate,
}
use lockfree.Wf.RingBuffer.Fifo.{Event, tau, put, put_full, get, get_empty}

-- uint64 subtraction and increment.
abbrev pub sub64 : ℕ → ℕ → ℕ
sub64 a b = (a + 2 ^ 64 - b) % 2 ^ 64

abbrev pub inc64 : ℕ → ℕ
inc64 a = (a + 1) % 2 ^ 64

-- `RingBuffer[T]`; the padding is left out. `blank` below is the zero value of `T`.
pub record RingBuffer {ℓ} (A : Type ℓ) : Type ℓ where
  pub buf : List A
  pub mask : ℕ
  pub head : ℕ
  pub tail : ℕ

-- Where the producer stands in `Put`, and the consumer in `Get`, with the locals that are live.
pub data Producer {ℓ} (A : Type ℓ) : Type ℓ where
  resting : Producer A
  loaded_tail : A → ℕ → Producer A
  has_room : A → ℕ → Producer A
  wrote : A → ℕ → Producer A

pub data Consumer {ℓ} (A : Type ℓ) : Type ℓ where
  resting : Consumer A
  loaded_head : ℕ → Consumer A
  has_item : ℕ → Consumer A
  read : ℕ → A → Consumer A
  cleared : ℕ → A → Consumer A

-- `Len` and `IsEmpty`, of the cursors that they load one behind the other.
unfoldable pub len : (tail head : ℕ) → ℕ
len tail head = sub64 tail head

unfoldable pub is_empty : (head tail : ℕ) → Bool
is_empty head tail = head == tail

module _ {ℓ} {A : Type ℓ} where
  -- The next access of the producer; from `resting` it calls `Put(x)`.
  unfoldable pub produce : RingBuffer A → Producer A → A → RingBuffer A × Producer A × Event A
  produce rb resting x = (rb, loaded_tail x rb.tail, tau)
  produce rb (loaded_tail y tail) x =
      if leb (length rb.buf) (sub64 tail rb.head)
      then (rb, resting, put_full)
      else (rb, has_room y tail, tau)
  produce rb (has_room y tail) x =
      (record rb { buf = set rb.buf (bit_and tail rb.mask) y }, wrote y tail, tau)
  produce rb (wrote y tail) x = (record rb { tail = inc64 tail }, resting, put y)

  -- The next access of the consumer; from `resting` it calls `Get()`.
  unfoldable pub consume : A → RingBuffer A → Consumer A → RingBuffer A × Consumer A × Event A
  consume blank rb resting = (rb, loaded_head rb.head, tau)
  consume blank rb (loaded_head head) =
      if head == rb.tail then (rb, resting, get_empty) else (rb, has_item head, tau)
  consume blank rb (has_item head) =
      (rb, read head (get_or rb.buf (bit_and head rb.mask) blank), tau)
  consume blank rb (read head x) =
      (record rb { buf = set rb.buf (bit_and head rb.mask) blank }, cleared head x, tau)
  consume blank rb (cleared head x) = (record rb { head = inc64 head }, resting, get x)

  -- `Cap` and `IsFull`.
  unfoldable pub cap : RingBuffer A → ℕ
  cap rb = length rb.buf

  unfoldable pub is_full : RingBuffer A → (tail head : ℕ) → Bool
  is_full rb tail head = leb (length rb.buf) (sub64 tail head)

-- `Put(x)` by the producer, or `Get()` by the consumer, makes its next access.
pub data Turn {ℓ} (A : Type ℓ) : Type ℓ where
  producer : A → Turn A
  consumer : Turn A

-- Both goroutines over one buffer.
pub record System {ℓ} (A : Type ℓ) : Type ℓ where
  pub rb : RingBuffer A
  pub prod : Producer A
  pub cons : Consumer A

module _ {ℓ} {A : Type ℓ} (blank : A) where
  unfoldable pub turn : System A → Turn A → System A × Event A
  turn s (producer x) =
      let (rb, p, e) = produce s.rb s.prod x in (record s { rb = rb; prod = p }, e)
  turn s consumer =
      let (rb, c, e) = consume blank s.rb s.cons in (record s { rb = rb; cons = c }, e)

  -- What the accesses of a schedule do, in its order.
  unfoldable pub run : System A → List (Turn A) → List (Event A) × System A
  unfolding turn
  run s [] = ([], s)
  run s (t ∷ ts) = let (s', e) = turn s t in let (es, s'') = run s' ts in (e ∷ es, s'')
