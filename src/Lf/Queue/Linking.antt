-- ===== src/Lf/Queue/Linking.antt =====
-- lf/queue.go: `Enqueue` links its node at the end.
use mathlib.Core.Path.{subst}
use native.Mathlib.Decide.{ℕ_discrete, dec_lt}
use lockfree.Base.{
  ℕ, suc, ◌+◌, ◌≡◌, ◌≢◌, refl, sym, ap, ◌∙◌, none, some, List, [], ◌∷◌, ◌++◌, arith, update,
  update_self, update_ne,
}
use lockfree.Linear.{tau}
use lockfree.Linear.Spec.{Status, done, Waits}
use lockfree.Linear.Simulate.{commits}
use lockfree.Lf.Queue.{enqueue, fifo, fifo_apply_op, Queue, enq_swing}
use lockfree.Lf.Queue.Order.{Order, Inv, window, window-snoc, window-congr, Makes, WasTail}
use lockfree.Lf.Queue.Links.{PcOk-stays, Outcome}

module _ {A : Type 0} (i : ℕ) (q : Queue A) (g : Order) (xs : List A) (inv : Inv q g xs) where
  -- The node `a` is linked behind the last one.
  module _ (a last : ℕ) (t : Status (fifo A)) (makes : Makes q g i a t) (was : WasTail q g last)
      (at_end : q.next last ≡ none) where
    linked_order : Order
    linked_order = record g {
      pos = update g.pos a (g.count + 1);
      log = update g.log (g.count + 1) a;
      count = g.count + 1;
    }

    ne-linked : (b : ℕ) → g.pos b ≢ 0 → a ≢ b
    ne-linked b h e = h (ap g.pos (sym e) ∙ makes.1)

    end-last : g.pos last ≡ g.count
    end-last = inv.next_nil last was.0 at_end

    linked-Inv :
        Inv (record q { next = update q.next last (some a) }) linked_order (xs ++ (q.val a ∷ []))
    unfolding linked_order
    linked-Inv =
        let last_end = end-last in
        let head_le = (inv.log-pos q.head inv.head_in).1 in
        record {
          log-pos = λ b h. elim (ℕ_discrete a b) [
            | yes e ↦ ground arith
            | no ne ↦ ground (arith, inv.log-pos b)
          ];
          pos-log = λ p lo hi. elim (dec_lt g.count p) [
            | yes new ↦ let e : p ≡ g.count + 1 = omega arith in ground arith
            | no old ↦
                let here = inv.pos-log p lo (omega arith) in
                let ne = ne-linked (g.log p) (λ z. omega arith) in ground arith
          ];
          fresh = λ b h. let lt = makes.0 in ground (arith, inv.fresh b);
          outside = λ b h.
              let z : g.pos b ≡ 0 = ground arith in
              let ne : last ≢ b = λ e. was.0 (ap g.pos e ∙ z) in
              update_ne q.next (some a) ne ∙ inv.outside b z;
          next_pos = λ b c h e. elim (ℕ_discrete last b) [
            | yes same ↦
                let found : a ≡ c = ground arith in let ne = ne-linked last was.0 in ground arith
            | no other ↦
                let old : q.next b ≡ some c = ground arith in
                let b_in : g.pos b ≢ 0 = λ z. cc (sym old ∙ inv.outside b z) in
                let next = inv.next_pos b c b_in old in
                let ne = ne-linked b b_in in
                let ne' = ne-linked c (λ z. omega arith) in ground arith
          ];
          next_nil = λ b h e. elim (ℕ_discrete a b) [
            | yes new ↦ ground arith
            | no old ↦
                let here : g.pos b ≢ 0 = ground arith in
                let other : last ≢ b = λ z. cc (
                  sym (update_self q.next last (some a))
                  ∙ ap (update q.next last (some a)) z
                  ∙ e) in
                let at_count : g.pos b ≡ g.pos last =
                  inv.next_nil b here (sym (update_ne q.next (some a) other) ∙ e) ∙ sym last_end in
                absurd (
                  other (
                    sym (inv.log-pos last was.0).0
                    ∙ ap g.log (sym at_count)
                    ∙ (inv.log-pos b here).0))
          ];
          head_in = let ne = ne-linked q.head inv.head_in in let h = inv.head_in in ground arith;
          head_tail =
              let le = inv.head_tail in
              let ne = ne-linked q.head inv.head_in in
              let h = inv.head_in in let ne' = ne-linked q.tail (λ z. omega arith) in ground arith;
          held =
              let (n, all, same) = inv.held in
              let ne = ne-linked q.head inv.head_in in
              let f : ℕ → A = λ p. q.val (linked_order.log p) in
              let all' : g.pos q.head + n + 1 ≡ g.count + 1 = omega arith in
              (
                suc n,
                ground arith,
                ap (λ (ys : List A). ys ++ (q.val a ∷ []))
                      (same
                        ∙ window-congr (λ p. q.val (g.log p)) f (g.pos q.head) n
                            (λ k lo hi. ap q.val (sym (update_ne g.log a (λ z. omega arith)))))
                    ∙ ap (λ (v : A). window f (g.pos q.head) n ++ (v ∷ []))
                        (sym (ap f all' ∙ ap q.val (update_self g.log (g.count + 1) a)))
                    ∙ sym (window-snoc f (g.pos q.head) n)
                    ∙ ap (λ (p : ℕ). window f p (suc n)) (sym (update_ne g.pos (g.count + 1) ne)),
              );
        }

    pub link-Outcome :
        Outcome i q g xs t (record q { next = update q.next last (some a) }, enq_swing a last, tau)
    unfolding linked_order fifo_apply_op
    link-Outcome =
        let (lt, free, own, waits) = makes in
        let last_end = end-last in
        let q' : Queue A = record q { next = update q.next last (some a) } in
        let stays_at : (b : ℕ) → g.pos b ≢ 0 → linked_order.pos b ≡ g.pos b =
          λ b h. update_ne g.pos (g.count + 1) (ne-linked b h) in
        let tail_in : g.pos q.tail ≢ 0 =
          λ z. let le = inv.head_tail in let h = inv.head_in in omega arith in
        (
          linked_order,
          xs ++ (q.val a ∷ []),
          done none,
          linked-Inv,
          (
            update_self g.pos a (g.count + 1)
                ∙ sym (ap (λ (k : ℕ). k + 1) (stays_at last was.0 ∙ last_end)),
            (
              λ z. was.0 (sym (stays_at last was.0) ∙ z),
              let e = stays_at last was.0 in
                  let e' = stays_at q.tail tail_in in let le = was.1 in omega arith,
            ),
            refl,
          ),
          λ j p u ne.
              PcOk-stays q' linked_order inv
                (record {
                  alloc_le = omega arith;
                  pos_stays = stays_at;
                  unlinked_stays = λ b h lt' o.
                      update_ne g.pos (g.count + 1) (λ e. o (sym (ap g.owner e) ∙ own)) ∙ h;
                  owner_stays = λ b h. refl;
                  val_stays = λ b h. refl;
                  tail_le = let e = stays_at q.tail tail_in in omega arith;
                  head_le = let e = stays_at q.head inv.head_in in omega arith;
                })
                j p u ne,
          commits (enqueue (q.val a)) none refl
              (subst (λ u. Waits (fifo A) u (enqueue (q.val a))) (sym waits) refl) refl refl,
        )
