-- ===== src/Wf/Universal/Linking.antt =====
-- wf/stack.go: the accesses of the loop of `apply`, of `publish` and of `advanceAnchor` keep what
-- holds of the structure.
use mathlib.Core.Path.{fun_ext, subst}
use native.Mathlib.Decide.{ℕ_discrete, dec_lt}
use lockfree.Base.{
  ℕ, ◌+◌, ◌%◌, ◌≡◌, ◌≢◌, inl, inr, refl, sym, ap, ◌∙◌, Option, some, Option-cases, Bool-cases,
  arith, ◌==◌, ==_iff, update, update_self, leb,
}
use lockfree.Wf.Universal.{
  Object, Result, Mem, Pc, Turn, registers, starts, scans, links, publishes, finishes, looping,
  pending, loaded_before, chosen_turn, loaded_cand, preferring, agreed, loaded_after, publishing,
  computed, stored_res, loaded_seq, moving, linked, loaded_res, advancing, loaded_cur, swinging,
  returned, idle,
}
use lockfree.Wf.Universal.Access.{link, publish, finish, access, cas_nil, cas_zero}
use lockfree.Wf.Universal.History.{Order, Shared, IsAhead, PcOk}
use lockfree.Wf.Universal.Stores.{quiet-Extends, quiet-Shared}
use lockfree.Wf.Universal.Consensus.{
  linked-Extends, linked-Shared, computed_result, stored-Extends, stored-Shared, numbered-Extends,
  numbered-Shared,
}
use lockfree.Wf.Universal.Keep.{
  Outcome, loads, stores_head, register-Outcome, start-Outcome, scan-Outcome,
}

-- To store what is there changes nothing.
update_same : {A : Type 0} (f : ℕ → A) (a : ℕ) {v : A} → f a ≡ v → update f a v ≡ f
update_same f a {v} e =
    fun_ext (λ b. elim (ℕ_discrete a b) [
      | yes same ↦ ground (arith, ap f same)
      | no other ↦ ground arith
    ])

module _ (o : Object) (n i : ℕ) (g : Order o) (m : Mem o) (sh : Shared o g m) where
  -- A node that is not published is behind every one that is.
  unpublished-IsAhead : (b a : ℕ) → m.seq b ≢ 0 → m.seq a ≡ 0 → IsAhead o g m b a
  unpublished-IsAhead b a b_in a_out = elim (ℕ_discrete (g.pos a) 0) [
    | yes e ↦ inl e
    | no linked_a ↦
        let at_end = sh.seq_nil a a_out linked_a in
        let linked_b : g.pos b ≢ 0 = λ e. b_in (sh.seq_pos b b_in ∙ e) in
        let (log_b, inside) = sh.sequential.log-pos b linked_b in
        let (log_a, _) = sh.sequential.log-pos a linked_a in
        elim (dec_lt (g.pos b) (g.pos a)) [
          | yes lt ↦ inr lt
          | no ge ↦
              let same : g.pos b ≡ g.pos a = omega arith in
              absurd (b_in (ap m.seq (sym log_b ∙ ap g.log same ∙ log_a) ∙ a_out))
        ]
  ]

  link-Outcome : (p : Pc o) → PcOk o g m i p → Outcome o n i g m (link o n i m p)
  unfolding link
  link-Outcome (looping mine) ok = elim (Bool-cases (m.seq mine == 0)) [
    | inl zero_seq ↦ rw zero_seq (
        loads o n i g m sh (pending mine) (
          ok.0,
          ok.1,
          λ f e. unpublished-IsAhead f mine (sh.head_in i f e) ((==_iff (m.seq mine) 0).0 zero_seq),
        ))
    | inr done ↦ rw done (loads o n i g m sh (linked mine) (ground arith))
  ]
  link-Outcome (pending mine) ok = elim (Option-cases (m.head i)) [
    | inl nil ↦ absurd (ok.1 nil)
    | inr (b, there) ↦
        rw there
          (loads o n i g m sh (loaded_before mine b) (ok.0, sh.head_in i b there, ok.2 b there))
  ]
  link-Outcome (loaded_before mine b) ok =
      loads o n i g m sh (chosen_turn mine b ((m.seq b + 1) % n)) ok
  link-Outcome (chosen_turn mine b j) ok = elim (Option-cases (m.announce j)) [
    | inl nil ↦ rw nil (loads o n i g m sh (preferring mine b mine) (ok.0, ok.1, ok.0, ok.2))
    | inr (c, there) ↦
        rw there
          (loads o n i g m sh (loaded_cand mine b c) (ok.0, ok.1, ok.2, sh.announce_in j c there))
  ]
  link-Outcome (loaded_cand mine b c) ok = elim (Bool-cases (m.seq c == 0)) [
    | inl zero_seq ↦ rw zero_seq (
        loads o n i g m sh (preferring mine b c)
          (ok.0, ok.1, ok.3, unpublished-IsAhead b c ok.1 ((==_iff (m.seq c) 0).0 zero_seq)))
    | inr done ↦ rw done (loads o n i g m sh (preferring mine b mine) (ok.0, ok.1, ok.0, ok.2))
  ]
  link-Outcome (preferring mine b p) ok = elim (Option-cases (m.next b)) [
    | inl nil ↦ rw nil (
      _,
      linked-Shared o i g m sh b p ok.1 ok.2 ok.3 nil,
      linked-Extends o i g m sh b p ok.1 ok.2 ok.3 nil,
      (ok.0, ok.1, λ e. ground arith),
    )
    | inr (c, there) ↦
        let kept : update m.next b (cas_nil o (m.next b) p) ≡ m.next =
          rw there (update_same m.next b there) in
        subst (λ (f : ℕ → Option ℕ). Outcome o n i g m (record m { next = f }, agreed mine b))
          (sym kept) (loads o n i g m sh (agreed mine b) (ok.0, ok.1, λ e. cc (sym there ∙ e)))
  ]
  link-Outcome (agreed mine b) ok = elim (Option-cases (m.next b)) [
    | inl nil ↦ absurd (ok.2 nil)
    | inr (a, there) ↦ rw there (loads o n i g m sh (loaded_after mine b a) (ok.0, (ok.1, there)))
  ]
  link-Outcome (loaded_after mine b a) ok = elim (Bool-cases (m.seq a == 0)) [
    | inl zero_seq ↦ rw zero_seq (loads o n i g m sh (publishing mine b a) ok)
    | inr done ↦ rw done (loads o n i g m sh (moving mine a) (ok.0, ground arith))
  ]
  link-Outcome p ok = loads o n i g m sh p ok

  publish-Outcome : (p : Pc o) → PcOk o g m i p → Outcome o n i g m (publish o n i m p)
  unfolding publish
  publish-Outcome (publishing mine b a) ok = elim (Option-cases (m.res b)) [
    | inl nil ↦ absurd (sh.seq_res b ok.1.0 nil)
    | inr (br, there) ↦
        rw there (loads o n i g m sh (computed mine b a br) (ok.0, ok.1, sh.res_result b br there))
  ]
  publish-Outcome (computed mine b a br) ok = elim (Option-cases (m.res a)) [
    | inl free ↦
        rw (free, ok.2, computed_result o i g m sh b a ok.1)
          (
            g,
            stored-Shared o i g m sh b a ok.1,
            stored-Extends o i g m sh b a ok.1 free,
            (ok.0, ok.1, λ e. ground arith),
          )
    | inr (r, there) ↦
        let kept : update m.res a (cas_nil o (m.res a) (o.apply_op (m.op a) br.0)) ≡ m.res =
          rw there (update_same m.res a there) in
        subst
          (λ (f : ℕ → Option (Result o)).
            Outcome o n i g m (record m { res = f }, stored_res mine b a))
          (sym kept)
          (loads o n i g m sh (stored_res mine b a) (ok.0, ok.1, λ e. cc (sym there ∙ e)))
  ]
  publish-Outcome (stored_res mine b a) ok =
      loads o n i g m sh (loaded_seq mine b a (m.seq b)) (ok.0, ok.1, ok.2, refl)
  publish-Outcome (loaded_seq mine b a s) ok = elim (Bool-cases (m.seq a == 0)) [
    | inl zero_seq ↦
        let free = (==_iff (m.seq a) 0).0 zero_seq in
        let next = sh.next_pos b a ok.1.1 in
        let number : s + 1 ≡ g.pos a =
          let at_b = sh.seq_pos b ok.1.0 in let same = ok.3 in omega arith in
        rw (zero_seq, number)
          (
            g,
            numbered-Shared o i g m sh b a ok.1 ok.2,
            numbered-Extends o i g m sh b a ok.1 free,
            (ok.0, ground arith),
          )
    | inr done ↦
        let kept : update m.seq a (cas_zero o (m.seq a) (s + 1)) ≡ m.seq =
          rw done (update_same m.seq a refl) in
        subst (λ (f : ℕ → ℕ). Outcome o n i g m (record m { seq = f }, moving mine a)) (sym kept)
          (loads o n i g m sh (moving mine a) (ok.0, ground arith))
  ]
  publish-Outcome (moving mine a) ok =
      stores_head o n i g m sh a (looping mine) ok.1
        (ok.0, λ e. cc (sym (update_self m.head i (some a)) ∙ e))
  publish-Outcome p ok = loads o n i g m sh p ok

  finish-Outcome : (p : Pc o) → PcOk o g m i p → Outcome o n i g m (finish o n i m p)
  unfolding finish
  finish-Outcome (linked mine) ok = elim (Option-cases (m.res mine)) [
    | inl nil ↦ absurd (sh.seq_res mine ok nil)
    | inr (r, there) ↦
        rw there (loads o n i g m sh (loaded_res mine r) (ok, sh.res_result mine r there))
  ]
  finish-Outcome (loaded_res mine r) ok = stores_head o n i g m sh mine (advancing mine r) ok.0 ok
  finish-Outcome (advancing mine r) ok = loads o n i g m sh (loaded_cur mine r m.anchor) ok
  finish-Outcome (loaded_cur mine r c) ok = elim (Bool-cases (leb (m.seq mine) (m.seq c))) [
    | inl behind ↦ rw behind (loads o n i g m sh (returned mine r) ok)
    | inr further ↦ rw further (loads o n i g m sh (swinging mine r c) ok)
  ]
  finish-Outcome (swinging mine r c) ok = elim (Bool-cases (m.anchor == c)) [
    | inl same ↦ rw same (
      g,
      quiet-Shared o i g m sh m.cursor mine m.announce ok.0 sh.announce_in,
      quiet-Extends o i g m sh m.cursor mine m.announce,
      ok,
    )
    | inr moved ↦ rw moved (loads o n i g m sh (advancing mine r) ok)
  ]
  finish-Outcome p ok = loads o n i g m sh p ok

  -- Every access, of whichever part of the code, has such an outcome.
  pub access-Outcome :
      (t : Turn o) (p : Pc o) → PcOk o g m i p → Outcome o n i g m (access o n i t m p)
  unfolding access
  access-Outcome registers p ok = register-Outcome o n i g m sh p ok
  access-Outcome (starts op) idle ok = start-Outcome o n i g m sh op
  access-Outcome (starts op) (returned mine r) ok = start-Outcome o n i g m sh op
  access-Outcome (starts op) p ok = loads o n i g m sh p ok
  access-Outcome scans p ok = scan-Outcome o n i g m sh p ok
  access-Outcome links p ok = link-Outcome p ok
  access-Outcome publishes p ok = publish-Outcome p ok
  access-Outcome finishes p ok = finish-Outcome p ok
