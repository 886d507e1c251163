-- ===== src/Lf/Queue/Enqueue.antt =====
-- lf/queue.go: each access of `Enqueue` keeps what holds of the queue.
use lockfree.Base.{
  ℕ, ◌+◌, ◌%◌, ◌^◌, ◌≡◌, ◌≢◌, inl, inr, refl, ap, Option, none, some, Option-cases, Bool, true,
  false, List, arith, ◌==◌,
}
use lockfree.Linear.{tau}
use lockfree.Linear.Spec.{Status}
use lockfree.Linear.Simulate.{stays}
use lockfree.Lf.Queue.{
  fifo, Queue, Pc, enq, enq_tail, enq_next, enq_link, enq_swing, enq_help, enq_len, returning,
  access_enqueue, enq_check, is_nil,
}
use lockfree.Lf.Queue.Order.{Order, Inv, WasTail, IsNext, PcOk}
use lockfree.Lf.Queue.Links.{Outcome}
use lockfree.Lf.Queue.Stores.{quiet, swing-Outcome}
use lockfree.Lf.Queue.Linking.{link-Outcome}

module _ {A : Type 0} (i : ℕ) (q : Queue A) (g : Order) (xs : List A) (inv : Inv q g xs) where
  -- The tail was never behind where it is.
  tail_in : WasTail q g q.tail
  tail_in = (λ z. let le = inv.head_tail in let h = inv.head_in in omega arith, omega arith)

  next-IsNext : (a : ℕ) (nx : Option ℕ) → g.pos a ≢ 0 → q.next a ≡ nx → IsNext q g a nx
  next-IsNext a none h e = tt
  next-IsNext a (some b) h e = inv.next_pos a b h e

  check-PcOk :
      (a last : ℕ) (nx : Option ℕ) (same : Bool) (t : Status (fifo A))
      → PcOk q g i (enq_next a last nx) t
      → PcOk q g i (enq_check a last nx same) t
  check-PcOk a last nx false t ok = ok.0
  check-PcOk a last none true t ok = (ok.0, ok.1)
  check-PcOk a last (some b) true t ok = ok

  pub enqueue-Outcome :
      (p : Pc A) (t : Status (fifo A)) → PcOk q g i p t → Outcome i q g xs t (access_enqueue q p)
  unfolding access_enqueue
  enqueue-Outcome (enq a) t ok =
      quiet i q g xs inv q.len (enq_tail a q.tail) t t tau (ok, tail_in) (stays refl refl refl)
  enqueue-Outcome (enq_tail a last) t (makes, was) =
      quiet i q g xs inv q.len (enq_next a last (q.next last)) t t tau
        (makes, was, next-IsNext last (q.next last) was.0 refl) (stays refl refl refl)
  enqueue-Outcome (enq_next a last nx) t ok =
      quiet i q g xs inv q.len (enq_check a last nx (last == q.tail)) t t tau
        (check-PcOk a last nx (last == q.tail) t ok) (stays refl refl refl)
  enqueue-Outcome (enq_link a last) t (makes, was) = elim (Option-cases (q.next last)) [
    | inl nil ↦ rw (ap is_nil nil) (link-Outcome i q g xs inv a last t makes was nil)
    | inr (b, there) ↦
        rw (ap is_nil there) (quiet i q g xs inv q.len (enq a) t t tau makes (stays refl refl refl))
  ]
  enqueue-Outcome (enq_swing a last) t (next, was, back) =
      swing-Outcome i q g xs inv last a enq_len t next back
  enqueue-Outcome (enq_help a last b) t (makes, was, next) =
      swing-Outcome i q g xs inv last b (enq a) t next makes
  enqueue-Outcome enq_len t ok =
      quiet i q g xs inv ((q.len + 1) % 2 ^ 64) (returning none) t t tau (inl ok)
        (stays refl refl refl)
  enqueue-Outcome p t ok = quiet i q g xs inv q.len p t t tau ok (stays refl refl refl)
