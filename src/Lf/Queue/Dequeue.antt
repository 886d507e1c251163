-- ===== src/Lf/Queue/Dequeue.antt =====
-- lf/queue.go: each access of `Dequeue` keeps what holds of the queue.
use lockfree.Base.{
  ℕ, zero, suc, ◌+◌, ◌≡◌, ◌≢◌, inl, inr, refl, sym, ap, ◌∙◌, Option, none, some, Bool, Bool-cases,
  true, false, List, [], ◌∷◌, arith, ◌==◌, ==_iff,
}
use lockfree.Linear.{tau}
use lockfree.Linear.Spec.{Status, seen, done}
use lockfree.Linear.Simulate.{stays, commits, observes}
use lockfree.Lf.Queue.{dequeue, fifo, fifo_apply_op, Queue, Pc, deq, returning}
use lockfree.Lf.Queue.Order.{Order, Inv, window, WasTail, WasHead, PcOk}
use lockfree.Lf.Queue.Links.{PcOk-stays, Outcome}
use lockfree.Lf.Queue.{
  deq_head, deq_tail, deq_next, deq_help, deq_swing, deq_len, access_dequeue, deq_check,
}
use lockfree.Lf.Queue.Stores.{quiet, swing-Outcome}

module _ {A : Type 0} (i : ℕ) (q : Queue A) (g : Order) (xs : List A) (inv : Inv q g xs) where
  tail_in : WasTail q g q.tail
  tail_in = (λ z. let le = inv.head_tail in let h = inv.head_in in omega arith, omega arith)

  -- A node that was the head and has no successor is the head, and the queue is empty.
  end-empty : (first : ℕ) → WasHead q g first → q.next first ≡ none → xs ≡ []
  end-empty first was nil =
      let (n, all, same) = inv.held in
      let at_end = inv.next_nil first was.0 nil in
      let le = was.1 in
      let none_left : n ≡ 0 = omega arith in
      same ∙ ap (λ (k : ℕ). window (λ p. q.val (g.log p)) (g.pos q.head) k) none_left

  -- Two nodes at one position are one.
  pos-inj : (a b : ℕ) → g.pos a ≢ 0 → g.pos b ≢ 0 → g.pos a ≡ g.pos b → a ≡ b
  pos-inj a b h k e = sym (inv.log-pos a h).0 ∙ ap g.log e ∙ (inv.log-pos b k).0

  -- Behind the load of `first.next`.
  read-Outcome :
      (first last : ℕ) (nx : Option ℕ) (t : Status (fifo A))
      → PcOk q g i (deq_tail first last) t
      → q.next first ≡ nx
      → Outcome i q g xs t (q, deq_next first last nx, tau)
  unfolding fifo_apply_op
  read-Outcome first last none t (w, h, l, le) nil =
      let at_end = inv.next_nil first h.0 nil in
      let le' = (inv.log-pos last l.0).1 in
      let same = pos-inj first last h.0 l.0 (omega arith) in
      let empty = end-empty first h nil in
      let saw : fifo_apply_op dequeue xs ≡ (xs, none) = rw empty refl in
      quiet i q g xs inv q.len (deq_next first last none) t (seen dequeue none) tau
        (refl, h, l, le, (same, refl)) (observes dequeue none refl w saw refl refl)
  read-Outcome first last (some b) t (w, h, l, le) there =
      quiet i q g xs inv q.len (deq_next first last (some b)) t t tau
        (w, h, l, le, inv.next_pos first b h.0 there) (stays refl refl refl)

  check-PcOk :
      (first last : ℕ) (nx : Option ℕ) (at_head same : Bool) (t : Status (fifo A))
      → (same ≡ (first == last))
      → PcOk q g i (deq_next first last nx) t
      → PcOk q g i (deq_check q.val first last nx at_head same) t
  check-PcOk first last nx false same t e (w, h, l, le, r) = w
  check-PcOk first last none true true t e (w, h, l, le, r) = inr (refl, r.1)
  check-PcOk first last (some b) true true t e (w, h, l, le, r) =
      let one = (==_iff first last).0 (sym e) in (w, l, r ∙ ap (λ (a : ℕ). g.pos a + 1) one)
  check-PcOk first last none true false t e (w, h, l, le, r) = let one = r.0 in ground arith
  check-PcOk first last (some b) true false t e (w, h, l, le, r) =
      let apart : g.pos first ≢ g.pos last =
        λ z. let one = pos-inj first last h.0 l.0 z in ground arith in
      (w, h, r, let le' = l.1 in omega arith, refl)

  abbrev value_at : ℕ → A
  value_at p = q.val (g.log p)

  -- The same with what the queue holds, `n` values.
  take_of :
      (first b : ℕ) (v : A) (t : Status (fifo A)) (n : ℕ)
      → PcOk q g i (deq_swing first b v) t
      → q.head ≡ first
      → g.pos q.head + n ≡ g.count
      → xs ≡ window value_at (g.pos q.head) n
      → Outcome i q g xs t (record q { head = b }, deq_len v, tau)
  unfolding fifo_apply_op
  take_of first b v t zero (w, h, next, le, val) at_head all same =
      let here = ap g.pos at_head in
      let inside = (inv.log-pos b (λ z. omega arith)).1 in absurd (omega arith)
  take_of first b v t (suc n) (w, h, next, le, val) at_head all same =
      let here : g.pos q.head ≡ g.pos first = ap g.pos at_head in
      let b_in : g.pos b ≢ 0 = λ z. omega arith in
      let at_b : g.pos q.head + 1 ≡ g.pos b = omega arith in
      let top : value_at (g.pos q.head + 1) ≡ v =
        ap value_at at_b ∙ ap q.val (inv.log-pos b b_in).0 ∙ sym val in
      let ys : List A = window value_at (g.pos b) n in
      let split : xs ≡ v ∷ ys =
        same
        ∙ ap (λ (x : A). x ∷ window value_at (g.pos q.head + 1) n) top
        ∙ ap (λ (p : ℕ). v ∷ window value_at p n) at_b in
      (
        g,
        ys,
        done (some v),
        record {
          log-pos = inv.log-pos;
          pos-log = inv.pos-log;
          fresh = inv.fresh;
          outside = inv.outside;
          next_pos = inv.next_pos;
          next_nil = inv.next_nil;
          head_in = b_in;
          head_tail = le;
          held = (n, omega arith, refl);
        },
        refl,
        λ j p u ne.
            PcOk-stays (record q { head = b }) g inv
              (record {
                alloc_le = omega arith;
                pos_stays = λ a h. refl;
                unlinked_stays = λ a h lt o. h;
                owner_stays = λ a h. refl;
                val_stays = λ a h. refl;
                tail_le = omega arith;
                head_le = omega arith;
              })
              j p u ne,
        commits dequeue (some v) refl w (ap (fifo_apply_op dequeue) split) refl,
      )

  -- The head moves from `first` to its successor.
  take-Outcome :
      (first b : ℕ) (v : A) (t : Status (fifo A))
      → PcOk q g i (deq_swing first b v) t
      → q.head ≡ first
      → Outcome i q g xs t (record q { head = b }, deq_len v, tau)
  take-Outcome first b v t ok at_head =
      let (n, all, same) = inv.held in take_of first b v t n ok at_head all same

  pub dequeue-Outcome :
      (p : Pc A) (t : Status (fifo A)) → PcOk q g i p t → Outcome i q g xs t (access_dequeue q p)
  unfolding access_dequeue
  dequeue-Outcome deq t ok =
      quiet i q g xs inv q.len (deq_head q.head) t t tau (ok, (inv.head_in, omega arith))
        (stays refl refl refl)
  dequeue-Outcome (deq_head first) t (w, h) =
      quiet i q g xs inv q.len (deq_tail first q.tail) t t tau
        (w, h, tail_in, let le = inv.head_tail in let le' = h.1 in omega arith)
        (stays refl refl refl)
  dequeue-Outcome (deq_tail first last) t ok = read-Outcome first last (q.next first) t ok refl
  dequeue-Outcome (deq_next first last nx) t ok =
      quiet i q g xs inv q.len (deq_check q.val first last nx (first == q.head) (first == last)) t t
        tau (check-PcOk first last nx (first == q.head) (first == last) t refl ok)
        (stays refl refl refl)
  dequeue-Outcome (deq_help last b) t (w, was, next) =
      swing-Outcome i q g xs inv last b deq t next w
  dequeue-Outcome (deq_swing first b v) t ok = elim (Bool-cases (q.head == first)) [
    | inl same ↦ rw same (take-Outcome first b v t ok ((==_iff q.head first).0 same))
    | inr moved ↦ rw moved (quiet i q g xs inv q.len deq t t tau ok.0 (stays refl refl refl))
  ]
  dequeue-Outcome (deq_len v) t ok =
      quiet i q g xs inv _ (returning (some v)) t t tau (inl ok) (stays refl refl refl)
  dequeue-Outcome p t ok = quiet i q g xs inv q.len p t t tau ok (stays refl refl refl)
