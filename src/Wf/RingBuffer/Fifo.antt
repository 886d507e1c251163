-- ===== src/Wf/RingBuffer/Fifo.antt =====
-- wf/ringbuffer.go: what a bounded FIFO buffer promises, as the events that its callers may see.
use lockfree.Base.{ℕ, ◌<◌, ◌≡◌, List, [], ◌∷◌, ◌++◌, length}

-- `tau` is an access inside a call; the others are the access at which a call takes effect, with
-- what the call returns.
pub data Event {ℓ} (A : Type ℓ) : Type ℓ where
  tau : Event A
  put : A → Event A
  put_full : Event A
  get : A → Event A
  get_empty : Event A

-- The events that a buffer of `cap` elements allows, oldest element first.
pub data FifoStep {ℓ} {A : Type ℓ} (cap : ℕ) : List A → Event A → List A → Type ℓ where
  inside : {q r : List A} → q ≡ r → FifoStep cap q tau r
  add : {q r : List A} (x : A) → length q < cap → r ≡ q ++ (x ∷ []) → FifoStep cap q (put x) r
  refuse : {q r : List A} → length q ≡ cap → q ≡ r → FifoStep cap q put_full r
  take : {q r : List A} (x : A) → q ≡ x ∷ r → FifoStep cap q (get x) r
  nothing : {q r : List A} → q ≡ [] → q ≡ r → FifoStep cap q get_empty r

pub data FifoRun {ℓ} {A : Type ℓ} (cap : ℕ) : List A → List (Event A) → List A → Type ℓ where
  end : {q : List A} → FifoRun cap q [] q
  step :
      {q r t : List A} {e : Event A} {es : List (Event A)}
      → FifoStep cap q e r
      → FifoRun cap r es t
      → FifoRun cap q (e ∷ es) t
