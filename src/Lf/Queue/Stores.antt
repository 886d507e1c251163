-- ===== src/Lf/Queue/Stores.antt =====
-- lf/queue.go: what the stores do to the queue.
use native.Mathlib.Decide.{ℕ_discrete}
use lockfree.Base.{
  ℕ, ◌+◌, ◌≤◌, ◌≡◌, ◌≢◌, inl, inr, refl, sym, ap, ◌∙◌, none, Bool-cases, List, arith, ◌==◌, ==_iff,
  update, update_self, update_ne,
}
use lockfree.Linear.{Event, tau}
use lockfree.Linear.Spec.{Status, out, called}
use lockfree.Linear.Simulate.{Local, stays, starts}
use lockfree.Lf.Queue.{enqueue, fifo, Queue, Pc, start, cas}
use lockfree.Lf.Queue.Order.{Order, Inv, window-congr, PcOk}
use lockfree.Lf.Queue.Links.{PcOk-stays, Outcome}

module _ {A : Type 0} (i : ℕ) (q : Queue A) (g : Order) (xs : List A) (inv : Inv q g xs) where
  tail-Outcome :
      (b n : ℕ) (p' : Pc A) (t t' : Status (fifo A)) (e : Event (fifo A))
      → g.pos q.tail ≤ g.pos b
      → PcOk (record q { tail = b; len = n }) g i p' t'
      → Local xs t xs t' e
      → Outcome i q g xs t (record q { tail = b; len = n }, p', e)
  tail-Outcome b n p' t t' e further ok local = (
    g,
    xs,
    t',
    record {
      log-pos = inv.log-pos;
      pos-log = inv.pos-log;
      fresh = inv.fresh;
      outside = inv.outside;
      next_pos = inv.next_pos;
      next_nil = inv.next_nil;
      head_in = inv.head_in;
      head_tail = let le = inv.head_tail in omega arith;
      held = inv.held;
    },
    ok,
    λ j p u ne.
        PcOk-stays (record q { tail = b; len = n }) g inv
          (record {
            alloc_le = omega arith;
            pos_stays = λ a h. refl;
            unlinked_stays = λ a h lt o. h;
            owner_stays = λ a h. refl;
            val_stays = λ a h. refl;
            tail_le = further;
            head_le = omega arith;
          })
          j p u ne,
    local,
  )

  -- An access that stores at most to `len`.
  pub quiet :
      (n : ℕ) (p' : Pc A) (t t' : Status (fifo A)) (e : Event (fifo A))
      → PcOk (record q { len = n }) g i p' t'
      → Local xs t xs t' e
      → Outcome i q g xs t (record q { len = n }, p', e)
  quiet n p' t t' e ok local = tail-Outcome q.tail n p' t t' e (omega arith) ok local

  -- The tail moves from `last` to its successor, or stays.
  pub swing-Outcome :
      (last b : ℕ) (p' : Pc A) (t : Status (fifo A))
      → g.pos b ≡ g.pos last + 1
      → PcOk (record q { tail = cas q.tail last b }) g i p' t
      → Outcome i q g xs t (record q { tail = cas q.tail last b }, p', tau)
  swing-Outcome last b p' t e ok =
      tail-Outcome (cas q.tail last b) q.len p' t t tau
        (elim (Bool-cases (q.tail == last)) [
          | inl same ↦ let at_tail = ap g.pos ((==_iff q.tail last).0 same) in rw same (omega arith)
          | inr other ↦ rw other (omega arith)
        ])
        ok (stays refl refl refl)

  -- `Enqueue` makes its node.
  pub alloc-Outcome :
      (v : A) (t : Status (fifo A)) → t ≡ out → Outcome i q g xs t (start (enqueue v) q)
  unfolding start
  alloc-Outcome v t free =
      let new = inv.fresh q.alloc (omega arith) in
      let apart : (a : ℕ) → g.pos a ≢ 0 → q.alloc ≢ a = λ a h e. h (ap g.pos (sym e) ∙ new) in
      (
        record g { owner = update g.owner q.alloc i },
        xs,
        called (enqueue v),
        record {
          log-pos = inv.log-pos;
          pos-log = inv.pos-log;
          fresh = λ a h. inv.fresh a (omega arith);
          outside = λ a h. elim (ℕ_discrete q.alloc a) [
            | yes same ↦ ground arith
            | no other ↦ update_ne q.next none other ∙ inv.outside a h
          ];
          next_pos = λ a b h e. inv.next_pos a b h (sym (update_ne q.next none (apart a h)) ∙ e);
          next_nil = λ a h e. inv.next_nil a h (sym (update_ne q.next none (apart a h)) ∙ e);
          head_in = inv.head_in;
          head_tail = inv.head_tail;
          held =
              let (n, end, same) = inv.held in
              (
                n,
                end,
                same
                    ∙ window-congr _ _ (g.pos q.head) n (λ k lo hi. sym (
                        update_ne q.val v (
                          apart (g.log k) (λ z.
                            let here = inv.pos-log k (omega arith) (omega arith) in omega arith)))),
              );
        },
        (
          omega arith,
          new,
          update_self g.owner q.alloc i,
          ap (λ (w : A). called (enqueue w)) (sym (update_self q.val q.alloc v)),
        ),
        λ j p u ne.
            PcOk-stays (start (enqueue v) q).0 (record g { owner = update g.owner q.alloc i }) inv
              (record {
                alloc_le = omega arith;
                pos_stays = λ a h. refl;
                unlinked_stays = λ a h lt o. h;
                owner_stays = λ a h. update_ne g.owner i (λ e. omega arith);
                val_stays = λ a h. update_ne q.val v (λ e. omega arith);
                tail_le = omega arith;
                head_le = omega arith;
              })
              j p u ne,
        starts (enqueue v) refl free refl refl,
      )
