-- ===== src/Wf/RingBuffer/Tests.antt =====
-- wf/ringbuffer.go: runs of the ring buffer, and its theorems at inputs.
use lockfree.Base.{ℕ, ◌+◌, ◌^◌, ◌≤◌, ◌≡◌, refl, none, some, List, [], ◌∷◌, pos, negsuc, arith}
use lockfree.Wf.RingBuffer.{
  RingBuffer, Producer, Consumer, Turn, producer, consumer, produce, consume, turn, run,
  loaded_tail,
}
use lockfree.Wf.RingBuffer.Capacity.{
  new_ring_buffer, next_power_of_two, double_while, ring_of, IsLeastPower,
  new_ring_buffer-IsLeastPower, new_ring_buffer-none,
}
use lockfree.Wf.RingBuffer.Fifo.{tau, put, get, get_empty, FifoStep, FifoRun}
use lockfree.Wf.RingBuffer.Inv.{Inv, contents}
use lockfree.Wf.RingBuffer.Produce.{produce-Fifo}
use lockfree.Wf.RingBuffer.Consume.{consume-Fifo}
use lockfree.Wf.RingBuffer.Refine.{at_rest, new-Inv, run-FifoRun, new_ring_buffer-FifoRun}

-- A buffer of two slots.
abbrev two : RingBuffer ℕ
two = ring_of 0 2

-- `Put(5)` with a `Get` in the middle of it, then `Get`.
abbrev turns : List (Turn ℕ)
turns =
    producer 5
    ∷ producer 5
    ∷ consumer
    ∷ producer 5
    ∷ consumer
    ∷ producer 5
    ∷ consumer
    ∷ consumer
    ∷ consumer
    ∷ consumer
    ∷ consumer
    ∷ []

events :
    (run 0 (at_rest two) turns).0
    ≡ tau ∷ tau ∷ tau ∷ tau ∷ get_empty ∷ put 5 ∷ tau ∷ tau ∷ tau ∷ tau ∷ get 5 ∷ []
unfolding run turn produce consume
events = refl

next_power_of_two_runs :
    (next_power_of_two 63 (pos 5) ≡ some 8)
    × (next_power_of_two 63 (pos 8) ≡ some 8)
    × (next_power_of_two 63 (negsuc 2) ≡ some 1)
unfolding next_power_of_two double_while
next_power_of_two_runs = (refl, refl, refl)

two-Inv : Inv 0 1 two Producer.resting Consumer.resting
two-Inv = (new-Inv 0 1 (omega arith)).0

run-FifoRun_example :
    let (es, s') = run 0 (at_rest two) turns in
    FifoRun 2 (contents 0 1 two Consumer.resting) es (contents 0 1 s'.rb s'.cons)
    × Inv 0 1 s'.rb s'.prod s'.cons
run-FifoRun_example = run-FifoRun 0 1 turns (at_rest two) two-Inv

new_ring_buffer-FifoRun_example :
    (rb : RingBuffer ℕ) × (k : ℕ) × (q : List ℕ) × (new_ring_buffer 0 63 (pos 2) ≡ some rb)
    × IsLeastPower 2 k
    × FifoRun (2 ^ k) [] (run 0 (at_rest rb) turns).0 q
new_ring_buffer-FifoRun_example = new_ring_buffer-FifoRun 0 2 turns (omega arith)

new_ring_buffer-IsLeastPower_example :
    (k : ℕ) × (rb : RingBuffer ℕ) × (new_ring_buffer 0 63 (pos 5) ≡ some rb)
    × (rb ≡ ring_of 0 (2 ^ k))
    × (k ≤ 62)
    × IsLeastPower 5 k
new_ring_buffer-IsLeastPower_example = new_ring_buffer-IsLeastPower 0 5 (omega arith)

new_ring_buffer-none_example : new_ring_buffer {A = ℕ} 0 1000 (pos (2 ^ 62 + 1)) ≡ none
new_ring_buffer-none_example = new_ring_buffer-none 0 1000 (2 ^ 62 + 1) (omega arith)

-- The producer has loaded `tail` and finds room.
loaded-Inv : Inv 0 1 two (loaded_tail 5 0) Consumer.resting
unfolding produce
loaded-Inv = (produce-Fifo 0 1 two Producer.resting Consumer.resting 5 two-Inv).0

produce-Fifo_example :
    let (rb', p', e) = produce two (loaded_tail 5 0) 6 in
    Inv 0 1 rb' p' Consumer.resting
    × FifoStep 2 (contents 0 1 two Consumer.resting) e (contents 0 1 rb' Consumer.resting)
produce-Fifo_example = produce-Fifo 0 1 two (loaded_tail 5 0) Consumer.resting 6 loaded-Inv

-- The consumer has loaded `head` and finds nothing.
waiting-Inv : Inv 0 1 two Producer.resting (Consumer.loaded_head 0)
unfolding consume
waiting-Inv = (consume-Fifo 0 1 two Producer.resting Consumer.resting two-Inv).0

consume-Fifo_example :
    let (rb', c', e) = consume 0 two (Consumer.loaded_head 0) in
    Inv 0 1 rb' Producer.resting c'
    × FifoStep 2 (contents 0 1 two (Consumer.loaded_head 0)) e (contents 0 1 rb' c')
consume-Fifo_example = consume-Fifo 0 1 two Producer.resting (Consumer.loaded_head 0) waiting-Inv
