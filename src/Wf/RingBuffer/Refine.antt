-- ===== src/Wf/RingBuffer/Refine.antt =====
-- wf/ringbuffer.go: under every schedule the buffer is a bounded FIFO.
use lockfree.Base.{ℕ, ◌^◌, ◌≤◌, ◌≡◌, refl, List, [], ◌∷◌, length-replicate, arith, pos, some}
use lockfree.Wf.RingBuffer.Fifo.{FifoRun, end, step}
use lockfree.Wf.RingBuffer.{
  RingBuffer, Producer, Consumer, System, Turn, producer, consumer, turn, run,
}
use lockfree.Wf.RingBuffer.Capacity.{
  new_ring_buffer, ring_of, IsLeastPower, new_ring_buffer-IsLeastPower,
}
use lockfree.Wf.RingBuffer.Inv.{Inv, contents}
use lockfree.Wf.RingBuffer.Produce.{produce-Fifo}
use lockfree.Wf.RingBuffer.Consume.{consume-Fifo}

module _ {ℓ} {A : Type ℓ} (blank : A) (k : ℕ) where
  -- From a system in the invariant, whatever the order of the accesses of the one producer and the
  -- one consumer, the calls of `Put` and `Get` that end are those of a FIFO of 2 ^ k elements, each
  -- taking effect at one of its own accesses: nothing is lost, doubled or reordered, and full and
  -- empty are reported where they hold. The invariant holds at the end again.
  pub run-FifoRun :
      (ts : List (Turn A)) (s : System A)
      → Inv blank k s.rb s.prod s.cons
      → let (es, s') = run blank s ts in
        FifoRun (2 ^ k) (contents blank k s.rb s.cons) es (contents blank k s'.rb s'.cons)
        × Inv blank k s'.rb s'.prod s'.cons
  unfolding run
  run-FifoRun [] s inv = (end, inv)
  run-FifoRun (producer x ∷ ts) s inv =
      let (kept, fifo) = produce-Fifo blank k s.rb s.prod s.cons x inv in
      let (rest, inv') = run-FifoRun ts (turn blank s (producer x)).0 kept in (step fifo rest, inv')
  run-FifoRun (consumer ∷ ts) s inv =
      let (kept, fifo) = consume-Fifo blank k s.rb s.prod s.cons inv in
      let (rest, inv') = run-FifoRun ts (turn blank s consumer).0 kept in (step fifo rest, inv')

  -- A new buffer satisfies the invariant, and is empty.
  pub new-Inv :
      k ≤ 62
      → Inv blank k (ring_of blank (2 ^ k)) Producer.resting Consumer.resting
        × (contents blank k (ring_of blank (2 ^ k)) Consumer.resting ≡ [])
  new-Inv small = (
    record {
      valid = record {
        small = small;
        size = length-replicate (2 ^ k) blank;
        mask = refl;
        head_in = omega arith;
        tail_in = omega arith;
        within = omega arith;
      };
      prod_ok = tt;
      cons_ok = tt;
      written = tt;
      taken = tt;
    },
    refl,
  )

-- The two goroutines at rest on a buffer.
abbrev pub at_rest {ℓ} : {A : Type ℓ} → RingBuffer A → System A
at_rest rb = record { rb = rb; prod = Producer.resting; cons = Consumer.resting }

-- For a capacity from 0 to 2 ^ 62 `NewRingBuffer` returns a buffer that, under every schedule of
-- one producer and one consumer, behaves as an empty FIFO does whose capacity is the least power of
-- two not below the one asked for.
pub new_ring_buffer-FifoRun {ℓ} :
    {A : Type ℓ} (blank : A) (n : ℕ) (ts : List (Turn A))
    → n ≤ 2 ^ 62
    → (rb : RingBuffer A) × (k : ℕ) × (q : List A) × (new_ring_buffer blank 63 (pos n) ≡ some rb)
      × IsLeastPower n k
      × FifoRun (2 ^ k) [] (run blank (at_rest rb) ts).0 q
new_ring_buffer-FifoRun blank n ts small =
    let (k, rb, done, e, kn, least) = new_ring_buffer-IsLeastPower blank n small in
    let (inv, empty) = new-Inv blank k kn in
    (
      ring_of blank (2 ^ k),
      k,
      _,
      rw (← e) done,
      least,
      (run-FifoRun blank k ts (at_rest (ring_of blank (2 ^ k))) inv).0,
    )
