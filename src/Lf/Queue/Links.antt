-- ===== src/Lf/Queue/Links.antt =====
-- lf/queue.go: what a goroutine has learnt survives the accesses of the others.
use lockfree.Base.{ℕ, ◌+◌, ◌≤◌, ◌<◌, ◌≡◌, ◌≢◌, sym, ap, ◌∙◌, Option, none, some, List, arith}
use native.Mathlib.Decide.{dec_lt}
use lockfree.Linear.{Event}
use lockfree.Linear.Spec.{Status}
use lockfree.Linear.Simulate.{Local}
use lockfree.Lf.Queue.{
  enqueue, fifo, Queue, Pc, idle, enq, enq_tail, enq_next, enq_link, enq_swing, enq_help, enq_len,
  deq, deq_head, deq_tail, deq_next, deq_help, deq_swing, deq_len, returning, nil_dereference,
}
use lockfree.Lf.Queue.Order.{Order, Inv, Makes, WasTail, WasHead, IsNext, HasRead, PcOk}

-- What an access of goroutine `i` leaves as it was, or moves forward only.
pub record Keeps {A : Type 0} (i : ℕ) (q : Queue A) (g : Order) (q' : Queue A) (g' : Order)
    : Type 0 where
  pub alloc_le : q.alloc ≤ q'.alloc
  pub pos_stays : (a : ℕ) → g.pos a ≢ 0 → g'.pos a ≡ g.pos a
  pub unlinked_stays : (a : ℕ) → g.pos a ≡ 0 → a < q.alloc → g.owner a ≢ i → g'.pos a ≡ 0
  pub owner_stays : (a : ℕ) → a < q.alloc → g'.owner a ≡ g.owner a
  pub val_stays : (a : ℕ) → a < q.alloc → q'.val a ≡ q.val a
  pub tail_le : g.pos q.tail ≤ g'.pos q'.tail
  pub head_le : g.pos q.head ≤ g'.pos q'.head

pub linked-lt :
    {A : Type 0} {q : Queue A} {g : Order} {xs : List A}
    → Inv q g xs
    → (a : ℕ) → g.pos a ≢ 0
    → a < q.alloc
linked-lt {q = q} inv a h = elim (dec_lt a q.alloc) [
  | yes lt ↦ lt
  | no ge ↦ absurd (h (inv.fresh a (omega arith)))
]

module _ {A : Type 0} {i : ℕ} {q : Queue A} (q' : Queue A) {g : Order} (g' : Order) {xs : List A}
    (inv : Inv q g xs) (x : Keeps i q g q' g') where
  Makes-stays : (j a : ℕ) (t : Status (fifo A)) → j ≢ i → Makes q g j a t → Makes q' g' j a t
  Makes-stays j a t ne (lt, free, own, e) =
      let le = x.alloc_le in
      (
        omega arith,
        x.unlinked_stays a free lt (λ e'. ne (sym own ∙ e')),
        x.owner_stays a lt ∙ own,
        e ∙ ap (λ (v : A). Status.called (enqueue v)) (sym (x.val_stays a lt)),
      )

  WasTail-stays : (a : ℕ) → WasTail q g a → WasTail q' g' a
  WasTail-stays a (h, le) =
      let e = x.pos_stays a h in let le' = x.tail_le in (λ z. h (sym e ∙ z), omega arith)

  WasHead-stays : (a : ℕ) → WasHead q g a → WasHead q' g' a
  WasHead-stays a (h, le) =
      let e = x.pos_stays a h in let le' = x.head_le in (λ z. h (sym e ∙ z), omega arith)

  next-stays : (a b : ℕ) → g.pos a ≢ 0 → g.pos b ≡ g.pos a + 1 → g'.pos b ≡ g'.pos a + 1
  next-stays a b h e =
      let same = x.pos_stays a h in let same' = x.pos_stays b (λ z. omega arith) in omega arith

  le-stays : (a b : ℕ) → g.pos a ≢ 0 → g.pos b ≢ 0 → g.pos a ≤ g.pos b → g'.pos a ≤ g'.pos b
  le-stays a b h k le = let same = x.pos_stays a h in let same' = x.pos_stays b k in omega arith

  IsNext-stays : (a : ℕ) (b : Option ℕ) → g.pos a ≢ 0 → IsNext q g a b → IsNext q' g' a b
  IsNext-stays a none h e = tt
  IsNext-stays a (some b) h e = next-stays a b h e

  HasRead-stays :
      (a b : ℕ) (nx : Option ℕ) (t : Status (fifo A))
      → g.pos a ≢ 0
      → HasRead q g a b nx t
      → HasRead q' g' a b nx t
  HasRead-stays a b none t h e = e
  HasRead-stays a b (some c) t h e = next-stays a c h e

  pub PcOk-stays :
      (j : ℕ) (p : Pc A) (t : Status (fifo A)) → j ≢ i → PcOk q g j p t → PcOk q' g' j p t
  PcOk-stays j idle t ne k = k
  PcOk-stays j (enq a) t ne k = Makes-stays j a t ne k
  PcOk-stays j (enq_tail a last) t ne (k, l) = (Makes-stays j a t ne k, WasTail-stays last l)
  PcOk-stays j (enq_next a last nx) t ne (k, l, n) =
      (Makes-stays j a t ne k, WasTail-stays last l, IsNext-stays last nx l.0 n)
  PcOk-stays j (enq_link a last) t ne (k, l) = (Makes-stays j a t ne k, WasTail-stays last l)
  PcOk-stays j (enq_swing a last) t ne (e, l, d) =
      (next-stays last a l.0 e, WasTail-stays last l, d)
  PcOk-stays j (enq_help a last b) t ne (k, l, e) =
      (Makes-stays j a t ne k, WasTail-stays last l, next-stays last b l.0 e)
  PcOk-stays j enq_len t ne k = k
  PcOk-stays j deq t ne k = k
  PcOk-stays j (deq_head first) t ne (w, h) = (w, WasHead-stays first h)
  PcOk-stays j (deq_tail first last) t ne (w, h, l, le) =
      (w, WasHead-stays first h, WasTail-stays last l, le-stays first last h.0 l.0 le)
  PcOk-stays j (deq_next first last nx) t ne (w, h, l, le, r) = (
    w,
    WasHead-stays first h,
    WasTail-stays last l,
    le-stays first last h.0 l.0 le,
    HasRead-stays first last nx t h.0 r,
  )
  PcOk-stays j (deq_help last b) t ne (w, l, e) = (w, WasTail-stays last l, next-stays last b l.0 e)
  PcOk-stays j (deq_swing first b v) t ne (w, h, e, le, s) =
      let linked : g.pos b ≢ 0 = λ z. omega arith in
      let tl = WasTail-stays b (linked, le) in
      (
        w,
        WasHead-stays first h,
        next-stays first b h.0 e,
        tl.1,
        s ∙ sym (x.val_stays b (linked-lt inv b linked)),
      )
  PcOk-stays j (deq_len v) t ne k = k
  PcOk-stays j (returning r) t ne k = k
  PcOk-stays j nil_dereference t ne k = k

-- What an access of goroutine `i`, with its call at `t`, does to a queue of `xs`.
abbrev pub Outcome :
    {A : Type 0}
    → ℕ
    → Queue A
    → Order
    → List A
    → Status (fifo A)
    → Queue A × Pc A × Event (fifo A)
    → Type 0
Outcome {A} i q g xs t (q', p', e) =
    (g' : Order) × (ys : List A) × (t' : Status (fifo A)) × Inv q' g' ys
    × PcOk q' g' i p' t'
    × ((j : ℕ) (p : Pc A) (u : Status (fifo A)) → j ≢ i → PcOk q g j p u → PcOk q' g' j p u)
    × Local xs t ys t' e
