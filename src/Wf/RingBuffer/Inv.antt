-- ===== src/Wf/RingBuffer/Inv.antt =====
-- wf/ringbuffer.go: what holds of the buffer, the producer's and the consumer's locals between any
-- two accesses.
use lockfree.Base.{ℕ, ◌+◌, ◌-◌, ◌%◌, ◌^◌, ◌≤◌, ◌<◌, ◌≡◌, List, ◌∷◌, length, get_or}
use lockfree.Wf.RingBuffer.{
  RingBuffer, Producer, Consumer, loaded_tail, has_room, wrote, loaded_head, has_item, read,
  cleared, sub64,
}
use lockfree.Wf.RingBuffer.Window.{window}

module _ {ℓ} {A : Type ℓ} where
  -- The number of elements between the cursors.
  abbrev pub count : RingBuffer A → ℕ
  count rb = sub64 rb.tail rb.head

  -- The capacity is a power of two with its mask, and no more elements are in than fit.
  pub record IsValid (k : ℕ) (rb : RingBuffer A) : Type 0 where
    pub small : k ≤ 62
    pub size : length rb.buf ≡ 2 ^ k
    pub mask : rb.mask ≡ 2 ^ k - 1
    pub head_in : rb.head < 2 ^ 64
    pub tail_in : rb.tail < 2 ^ 64
    pub within : count rb ≤ 2 ^ k

  -- The producer's `tail` is the buffer's, and once it has seen room there is room.
  abbrev pub ProducerOk : ℕ → RingBuffer A → Producer A → Type 0
  ProducerOk k rb Producer.resting = Unit
  ProducerOk k rb (loaded_tail x t) = t ≡ rb.tail
  ProducerOk k rb (has_room x t) = (t ≡ rb.tail) × (count rb < 2 ^ k)
  ProducerOk k rb (wrote x t) = (t ≡ rb.tail) × (count rb < 2 ^ k)

  -- The consumer's `head` is the buffer's, and once it has seen an item there is one.
  abbrev pub ConsumerOk : RingBuffer A → Consumer A → Type 0
  ConsumerOk rb Consumer.resting = Unit
  ConsumerOk rb (loaded_head h) = h ≡ rb.head
  ConsumerOk rb (has_item h) = (h ≡ rb.head) × (0 < count rb)
  ConsumerOk rb (read h x) = (h ≡ rb.head) × (0 < count rb)
  ConsumerOk rb (cleared h x) = (h ≡ rb.head) × (0 < count rb)

  module _ (blank : A) (k : ℕ) where
    -- The producer's write stands in the slot at `tail`.
    abbrev pub Written : RingBuffer A → Producer A → Type ℓ
    Written rb (wrote x t) = get_or rb.buf (rb.tail % 2 ^ k) blank ≡ x
    Written rb p = Unit

    -- The consumer's item is what stands in the slot at `head`, until it clears the slot.
    abbrev pub Taken : RingBuffer A → Consumer A → Type ℓ
    Taken rb (read h x) = get_or rb.buf (rb.head % 2 ^ k) blank ≡ x
    Taken rb c = Unit

    pub record Inv (rb : RingBuffer A) (p : Producer A) (c : Consumer A) : Type ℓ where
      pub valid : IsValid k rb
      pub prod_ok : ProducerOk k rb p
      pub cons_ok : ConsumerOk rb c
      pub written : Written rb p
      pub taken : Taken rb c

    -- The elements in the buffer, oldest first. The item whose slot is cleared is in until `head`
    -- moves on.
    abbrev pub contents : RingBuffer A → Consumer A → List A
    contents rb (cleared h x) = x ∷ window blank (2 ^ k) rb.buf (rb.head + 1) (count rb - 1)
    contents rb c = window blank (2 ^ k) rb.buf rb.head (count rb)
