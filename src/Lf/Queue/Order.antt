-- ===== src/Lf/Queue/Order.antt =====
-- lf/queue.go: the order in which nodes are linked, and what of it holds between any two accesses.
use lockfree.Base.{
  ℕ, zero, suc, ◌+◌, ◌≤◌, ◌<◌, ◌≡◌, ◌≢◌, refl, ap, ◌∙◌, Option, none, some, List, [], ◌∷◌, ◌++◌,
  arith, ◌⊎◌,
}
use lockfree.Linear.Spec.{Status, out, called, seen, done, Waits}
use lockfree.Lf.Queue.{
  enqueue, dequeue, fifo, Queue, Pc, idle, enq, enq_tail, enq_next, enq_link, enq_swing, enq_help,
  enq_len, deq, deq_head, deq_tail, deq_next, deq_help, deq_swing, deq_len, returning,
  nil_dereference,
}

-- The nodes linked so far: the position of each (0 for a node that is not), from 1 on, the node at
-- each position, and the number of positions; and the goroutine that made each node.
pub record Order : Type 0 where
  pub pos : ℕ → ℕ
  pub log : ℕ → ℕ
  pub count : ℕ
  pub owner : ℕ → ℕ

module _ {A : Type 0} where
  -- The values at `n` positions behind `p`.
  abbrev pub window : (ℕ → A) → ℕ → ℕ → List A
  window f p zero = []
  window f p (suc n) = f (p + 1) ∷ window f (p + 1) n

  pub window-snoc :
      (f : ℕ → A) (p n : ℕ) → window f p (suc n) ≡ window f p n ++ (f (p + n + 1) ∷ [])
  window-snoc f p zero = ap (λ (k : ℕ). f k ∷ []) (omega arith)
  window-snoc f p (suc n) =
      ap (λ (xs : List A). f (p + 1) ∷ xs)
        (window-snoc f (p + 1) n ∙ ap (λ (k : ℕ). window f (p + 1) n ++ (f k ∷ [])) (omega arith))

  pub window-congr :
      (f g : ℕ → A) (p n : ℕ)
      → ((k : ℕ) → p < k → k ≤ p + n → f k ≡ g k)
      → window f p n ≡ window g p n
  window-congr f g p zero h = refl
  window-congr f g p (suc n) h =
      ap (λ (x : A). x ∷ window f (p + 1) n) (h (p + 1) (omega arith) (omega arith))
      ∙ ap (λ (xs : List A). g (p + 1) ∷ xs)
          (window-congr f g (p + 1) n (λ k lo hi. h k (omega arith) (omega arith)))

  -- The memory follows the order, and the elements are the values behind the head.
  pub record Inv (q : Queue A) (g : Order) (xs : List A) : Type 0 where
    pub log-pos : (a : ℕ) → g.pos a ≢ 0 → (g.log (g.pos a) ≡ a) × (g.pos a ≤ g.count)
    pub pos-log : (p : ℕ) → 1 ≤ p → p ≤ g.count → g.pos (g.log p) ≡ p
    pub fresh : (a : ℕ) → q.alloc ≤ a → g.pos a ≡ 0
    pub outside : (a : ℕ) → g.pos a ≡ 0 → q.next a ≡ none
    pub next_pos : (a b : ℕ) → g.pos a ≢ 0 → q.next a ≡ some b → g.pos b ≡ g.pos a + 1
    pub next_nil : (a : ℕ) → g.pos a ≢ 0 → q.next a ≡ none → g.pos a ≡ g.count
    pub head_in : g.pos q.head ≢ 0
    pub head_tail : g.pos q.head ≤ g.pos q.tail
    pub held :
        (n : ℕ) × (g.pos q.head + n ≡ g.count)
        × (xs ≡ window (λ p. q.val (g.log p)) (g.pos q.head) n)

  module _ (q : Queue A) (g : Order) where
    -- A node that goroutine `j` has made and not linked, for a value that it is to enqueue.
    abbrev pub Makes : ℕ → ℕ → Status (fifo A) → Type 0
    Makes j i t = (i < q.alloc) × (g.pos i ≡ 0) × (g.owner i ≡ j) × (t ≡ called (enqueue (q.val i)))

    -- A node that was the tail, or the head.
    abbrev pub WasTail : ℕ → Type 0
    WasTail last = (g.pos last ≢ 0) × (g.pos last ≤ g.pos q.tail)

    abbrev pub WasHead : ℕ → Type 0
    WasHead first = (g.pos first ≢ 0) × (g.pos first ≤ g.pos q.head)

    abbrev pub IsNext : ℕ → Option ℕ → Type 0
    IsNext a none = Unit
    IsNext a (some b) = g.pos b ≡ g.pos a + 1

    -- What `Dequeue` has learnt when it has loaded `first`, `last` and `first.next`.
    abbrev pub HasRead : ℕ → ℕ → Option ℕ → Status (fifo A) → Type 0
    HasRead first last none t = (first ≡ last) × (t ≡ seen dequeue none)
    HasRead first last (some b) t = g.pos b ≡ g.pos first + 1

    -- What holds of goroutine `j` at its place, with its call at `t`.
    abbrev pub PcOk : ℕ → Pc A → Status (fifo A) → Type 0
    PcOk j idle t = t ≡ out
    PcOk j (enq i) t = Makes j i t
    PcOk j (enq_tail i last) t = Makes j i t × WasTail last
    PcOk j (enq_next i last nx) t = Makes j i t × WasTail last × IsNext last nx
    PcOk j (enq_link i last) t = Makes j i t × WasTail last
    PcOk j (enq_swing i last) t = (g.pos i ≡ g.pos last + 1) × WasTail last × (t ≡ done none)
    PcOk j (enq_help i last b) t = Makes j i t × WasTail last × (g.pos b ≡ g.pos last + 1)
    PcOk j enq_len t = t ≡ done none
    PcOk j deq t = Waits (fifo A) t dequeue
    PcOk j (deq_head first) t = Waits (fifo A) t dequeue × WasHead first
    PcOk j (deq_tail first last) t =
        Waits (fifo A) t dequeue × WasHead first × WasTail last × (g.pos first ≤ g.pos last)
    PcOk j (deq_next first last nx) t =
        Waits (fifo A) t dequeue
        × WasHead first
        × WasTail last
        × (g.pos first ≤ g.pos last)
        × HasRead first last nx t
    PcOk j (deq_help last b) t =
        Waits (fifo A) t dequeue × WasTail last × (g.pos b ≡ g.pos last + 1)
    PcOk j (deq_swing first b v) t =
        Waits (fifo A) t dequeue
        × WasHead first
        × (g.pos b ≡ g.pos first + 1)
        × (g.pos b ≤ g.pos q.tail)
        × (v ≡ q.val b)
    PcOk j (deq_len v) t = t ≡ done (some v)
    PcOk j (returning r) t = (t ≡ done r) ⊎ ((r ≡ none) × (t ≡ seen dequeue none))
    PcOk j nil_dereference t = ⊥
