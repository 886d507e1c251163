-- ===== src/Wf/Universal/Calls.antt =====
-- wf/stack.go: a call of `apply` from its start to its return.
use mathlib.Core.Path.{subst}
use native.Mathlib.Decide.{ℕ_discrete}
use lockfree.Base.{
  ℕ, ◌≡◌, ◌≢◌, inl, inr, refl, sym, Option-cases, Bool-cases, ◌==◌, List, [], ◌∷◌, update,
  update_self, update_ne, leb, ltb, All,
}
use lockfree.Wf.Universal.{
  Object, Mem, Pc, Turn, System, registers, starts, scans, links, publishes, finishes, unregistered,
  got_slot, got_frontier, stored_head, idle, announced, loaded_anchor, scanning, loaded_head,
  looping, pending, loaded_before, chosen_turn, loaded_cand, preferring, agreed, loaded_after,
  publishing, computed, stored_res, loaded_seq, moving, linked, loaded_res, advancing, loaded_cur,
  swinging, returned, nil_dereference,
}
use lockfree.Wf.Universal.Access.{register, scan, link, publish, finish, access, step, run}

module _ (o : Object) where
  -- The call that is under way is that of the node `a`, or has panicked.
  abbrev pub Owns : ℕ → Pc o → Type 0
  Owns a (announced mine) = mine ≡ a
  Owns a (loaded_anchor mine best) = mine ≡ a
  Owns a (scanning mine best s i) = mine ≡ a
  Owns a (loaded_head mine best s i nd) = mine ≡ a
  Owns a (looping mine) = mine ≡ a
  Owns a (pending mine) = mine ≡ a
  Owns a (loaded_before mine b) = mine ≡ a
  Owns a (chosen_turn mine b j) = mine ≡ a
  Owns a (loaded_cand mine b c) = mine ≡ a
  Owns a (preferring mine b p) = mine ≡ a
  Owns a (agreed mine b) = mine ≡ a
  Owns a (loaded_after mine b c) = mine ≡ a
  Owns a (publishing mine b c) = mine ≡ a
  Owns a (computed mine b c r) = mine ≡ a
  Owns a (stored_res mine b c) = mine ≡ a
  Owns a (loaded_seq mine b c s) = mine ≡ a
  Owns a (moving mine c) = mine ≡ a
  Owns a (linked mine) = mine ≡ a
  Owns a (loaded_res mine r) = mine ≡ a
  Owns a (advancing mine r) = mine ≡ a
  Owns a (loaded_cur mine r c) = mine ≡ a
  Owns a (swinging mine r c) = mine ≡ a
  Owns a (returned mine r) = mine ≡ a
  Owns a nil_dereference = Unit
  Owns a p = ⊥

  -- A participant that may start a call.
  abbrev pub IsReady : Pc o → Type 0
  IsReady idle = Unit
  IsReady (returned mine r) = Unit
  IsReady p = ⊥

  -- A turn that starts no call of participant `i`.
  abbrev pub IsQuiet : ℕ → ℕ × Turn o → Type 0
  IsQuiet i (j, starts op) = j ≢ i
  IsQuiet i (j, t) = Unit

  module _ (n i a : ℕ) (m : Mem o) where
    register-Owns : (p : Pc o) → Owns a p → Owns a (register o n i m p).1
    unfolding register
    register-Owns unregistered h = absurd h
    register-Owns got_slot h = absurd h
    register-Owns (got_frontier f) h = absurd h
    register-Owns (stored_head f) h = absurd h
    register-Owns p h = h

    scan-Owns : (p : Pc o) → Owns a p → Owns a (scan o n i m p).1
    unfolding scan
    scan-Owns (scanning mine best s j) h = elim (Bool-cases (ltb j n)) [
      | inl more ↦ elim (Option-cases (m.head j)) [
        | inl nil ↦ rw (more, nil) h
        | inr (nd, there) ↦ rw (more, there) h
      ]
      | inr over ↦ rw over h
    ]
    scan-Owns (loaded_head mine best s j nd) h = elim (Bool-cases (ltb s (m.seq nd))) [
      | inl e ↦ rw e h
      | inr e ↦ rw e h
    ]
    scan-Owns p h = h

    link-Owns : (p : Pc o) → Owns a p → Owns a (link o n i m p).1
    unfolding link
    link-Owns (looping mine) h = elim (Bool-cases (m.seq mine == 0)) [
      | inl e ↦ rw e h
      | inr e ↦ rw e h
    ]
    link-Owns (pending mine) h = elim (Option-cases (m.head i)) [
      | inl e ↦ rw e tt
      | inr (b, e) ↦ rw e h
    ]
    link-Owns (chosen_turn mine b j) h = elim (Option-cases (m.announce j)) [
      | inl e ↦ rw e h
      | inr (c, e) ↦ rw e h
    ]
    link-Owns (loaded_cand mine b c) h = elim (Bool-cases (m.seq c == 0)) [
      | inl e ↦ rw e h
      | inr e ↦ rw e h
    ]
    link-Owns (agreed mine b) h = elim (Option-cases (m.next b)) [
      | inl e ↦ rw e tt
      | inr (c, e) ↦ rw e h
    ]
    link-Owns (loaded_after mine b c) h = elim (Bool-cases (m.seq c == 0)) [
      | inl e ↦ rw e h
      | inr e ↦ rw e h
    ]
    link-Owns p h = h

    publish-Owns : (p : Pc o) → Owns a p → Owns a (publish o n i m p).1
    unfolding publish
    publish-Owns (publishing mine b c) h = elim (Option-cases (m.res b)) [
      | inl e ↦ rw e tt
      | inr (r, e) ↦ rw e h
    ]
    publish-Owns p h = h

    finish-Owns : (p : Pc o) → Owns a p → Owns a (finish o n i m p).1
    unfolding finish
    finish-Owns (linked mine) h = elim (Option-cases (m.res mine)) [
      | inl e ↦ rw e tt
      | inr (r, e) ↦ rw e h
    ]
    finish-Owns (loaded_cur mine r c) h = elim (Bool-cases (leb (m.seq mine) (m.seq c))) [
      | inl e ↦ rw e h
      | inr e ↦ rw e h
    ]
    finish-Owns (swinging mine r c) h = elim (Bool-cases (m.anchor == c)) [
      | inl e ↦ rw e h
      | inr e ↦ rw e h
    ]
    finish-Owns p h = h

    access-Owns :
        (t : Turn o) (p : Pc o) → IsQuiet i (i, t) → Owns a p → Owns a (access o n i t m p).1
    unfolding access
    access-Owns registers p q h = register-Owns p h
    access-Owns (starts op) p q h = absurd (q refl)
    access-Owns scans p q h = scan-Owns p h
    access-Owns links p q h = link-Owns p h
    access-Owns publishes p q h = publish-Owns p h
    access-Owns finishes p q h = finish-Owns p h

  step-Owns :
      (n i a : ℕ) (s : System o) (j : ℕ) (t : Turn o)
      → IsQuiet i (j, t)
      → Owns a (s.pc i)
      → Owns a ((step o n s j t).pc i)
  unfolding step
  step-Owns n i a s j t q h = elim (ℕ_discrete j i) [
    | yes same ↦
        let own = access-Owns n i a s.mem t (s.pc i) (subst (λ k. IsQuiet i (k, t)) same q) h in
        subst (λ k. Owns a (update s.pc k (access o n k t s.mem (s.pc k)).1 i)) (sym same)
          (subst (Owns a) (sym (update_self s.pc i (access o n i t s.mem (s.pc i)).1)) own)
    | no other ↦ subst (Owns a) (sym (update_ne s.pc (access o n j t s.mem (s.pc j)).1 other)) h
  ]

  -- Until it starts another call, a participant that has started one is in the call of its node.
  pub run-Owns :
      (n i a : ℕ) (s : System o) (ts : List (ℕ × Turn o))
      → All (IsQuiet i) ts
      → Owns a (s.pc i)
      → Owns a ((run o n s ts).pc i)
  unfolding run
  run-Owns n i a s [] q h = h
  run-Owns n i a s ((j, t) ∷ ts) q h =
      run-Owns n i a (step o n s j t) ts q.1 (step-Owns n i a s j t q.0 h)
