-- ===== src/Wf/Universal/Kinds.antt =====
-- wf/stack.go: what an access means for the call that its participant has under way.
use lockfree.Base.{
  ℕ, ◌+◌, ◌≡◌, ◌≢◌, inl, inr, refl, Option, none, some, Option-cases, Bool-cases, ◌==◌, leb, ltb,
  update_self,
}
use lockfree.Linear.{Event, tau, call, ret}
use lockfree.Wf.Universal.{
  Object, Result, Mem, Pc, Turn, registers, starts, scans, links, publishes, finishes, unregistered,
  idle, announced, loaded_anchor, scanning, loaded_head, looping, pending, loaded_before,
  chosen_turn, loaded_cand, preferring, agreed, loaded_after, publishing, computed, stored_res,
  loaded_seq, moving, linked, loaded_res, advancing, loaded_cur, swinging, returned,
  nil_dereference,
}
use lockfree.Wf.Universal.Access.{register, start, scan, link, publish, finish, access}
use lockfree.Wf.Universal.History.{Order, PcOk}
use lockfree.Wf.Universal.Spec.{Spec, abstract, event}

module _ {o : Object} where
  -- The node of the call that is under way.
  abbrev pub mine_of : Pc o → Option ℕ
  mine_of (announced mine) = some mine
  mine_of (loaded_anchor mine best) = some mine
  mine_of (scanning mine best s i) = some mine
  mine_of (loaded_head mine best s i nd) = some mine
  mine_of (looping mine) = some mine
  mine_of (pending mine) = some mine
  mine_of (loaded_before mine b) = some mine
  mine_of (chosen_turn mine b j) = some mine
  mine_of (loaded_cand mine b c) = some mine
  mine_of (preferring mine b p) = some mine
  mine_of (agreed mine b) = some mine
  mine_of (loaded_after mine b c) = some mine
  mine_of (publishing mine b c) = some mine
  mine_of (computed mine b c r) = some mine
  mine_of (stored_res mine b c) = some mine
  mine_of (loaded_seq mine b c s) = some mine
  mine_of (moving mine c) = some mine
  mine_of (linked mine) = some mine
  mine_of (loaded_res mine r) = some mine
  mine_of (advancing mine r) = some mine
  mine_of (loaded_cur mine r c) = some mine
  mine_of (swinging mine r c) = some mine
  mine_of p = none

module _ {o : Object} (sp : Spec o) (m : Mem o) where
  -- An access from `p` to `p'` that leaves `m'`: inside a call or outside of all, the start of a call,
  -- its return, or a panic.
  pub data Kind (p p' : Pc o) (m' : Mem o) (e : Event (abstract sp)) : Type 0 where
    within : mine_of p' ≡ mine_of p → m'.alloc ≡ m.alloc → e ≡ tau → Kind p p' m' e
    begins :
        (op : o.Op)
        → mine_of p ≡ none
        → mine_of p' ≡ some m.alloc
        → m'.alloc ≡ m.alloc + 1
        → m'.op m.alloc ≡ op
        → e ≡ call op
        → Kind p p' m' e
    ends :
        (mine : ℕ) (r : Result o)
        → mine_of p ≡ some mine
        → p' ≡ returned mine r
        → ((g : Order o) (j : ℕ) → PcOk o g m j p → (m.seq mine ≢ 0) × (r ≡ g.result (g.pos mine)))
        → m'.alloc ≡ m.alloc
        → e ≡ ret r.1
        → Kind p p' m' e
    panics : p' ≡ nil_dereference → Kind p p' m' e

  abbrev pub KindOf : Turn o → Pc o → Mem o × Pc o → Type 0
  KindOf t p (m', p') = Kind p p' m' (event sp t p p')

  module _ (n i : ℕ) where
    register-Kind : (p : Pc o) → KindOf registers p (register o n i m p)
    unfolding register
    register-Kind unregistered = elim (Bool-cases (m.cursor == i)) [
      | inl e ↦ elim (Bool-cases (leb n m.cursor)) [
        | inl f ↦ rw (e, f) (within refl refl refl)
        | inr f ↦ rw (e, f) (within refl refl refl)
      ]
      | inr e ↦ rw e (within refl refl refl)
    ]
    register-Kind p = within refl refl refl

    start-Kind :
        (op : o.Op) (p : Pc o)
        → mine_of p ≡ none
        → Kind p (start o n i op m).1 (start o n i op m).0 (call op)
    unfolding start
    start-Kind op p free = begins op free refl refl (update_self m.op m.alloc op) refl

    scan-Kind : (p : Pc o) → KindOf scans p (scan o n i m p)
    unfolding scan
    scan-Kind (scanning mine best s j) = elim (Bool-cases (ltb j n)) [
      | inl more ↦ elim (Option-cases (m.head j)) [
        | inl nil ↦ rw (more, nil) (within refl refl refl)
        | inr (nd, there) ↦ rw (more, there) (within refl refl refl)
      ]
      | inr over ↦ rw over (within refl refl refl)
    ]
    scan-Kind (loaded_head mine best s j nd) = elim (Bool-cases (ltb s (m.seq nd))) [
      | inl e ↦ rw e (within refl refl refl)
      | inr e ↦ rw e (within refl refl refl)
    ]
    scan-Kind p = within refl refl refl

    link-Kind : (p : Pc o) → KindOf links p (link o n i m p)
    unfolding link
    link-Kind (looping mine) = elim (Bool-cases (m.seq mine == 0)) [
      | inl e ↦ rw e (within refl refl refl)
      | inr e ↦ rw e (within refl refl refl)
    ]
    link-Kind (pending mine) = elim (Option-cases (m.head i)) [
      | inl e ↦ rw e (panics refl)
      | inr (b, e) ↦ rw e (within refl refl refl)
    ]
    link-Kind (chosen_turn mine b j) = elim (Option-cases (m.announce j)) [
      | inl e ↦ rw e (within refl refl refl)
      | inr (c, e) ↦ rw e (within refl refl refl)
    ]
    link-Kind (loaded_cand mine b c) = elim (Bool-cases (m.seq c == 0)) [
      | inl e ↦ rw e (within refl refl refl)
      | inr e ↦ rw e (within refl refl refl)
    ]
    link-Kind (agreed mine b) = elim (Option-cases (m.next b)) [
      | inl e ↦ rw e (panics refl)
      | inr (c, e) ↦ rw e (within refl refl refl)
    ]
    link-Kind (loaded_after mine b c) = elim (Bool-cases (m.seq c == 0)) [
      | inl e ↦ rw e (within refl refl refl)
      | inr e ↦ rw e (within refl refl refl)
    ]
    link-Kind p = within refl refl refl

    publish-Kind : (p : Pc o) → KindOf publishes p (publish o n i m p)
    unfolding publish
    publish-Kind (publishing mine b c) = elim (Option-cases (m.res b)) [
      | inl e ↦ rw e (panics refl)
      | inr (r, e) ↦ rw e (within refl refl refl)
    ]
    publish-Kind p = within refl refl refl

    finish-Kind : (p : Pc o) → KindOf finishes p (finish o n i m p)
    unfolding finish
    finish-Kind (linked mine) = elim (Option-cases (m.res mine)) [
      | inl e ↦ rw e (panics refl)
      | inr (r, e) ↦ rw e (within refl refl refl)
    ]
    finish-Kind (loaded_cur mine r c) = elim (Bool-cases (leb (m.seq mine) (m.seq c))) [
      | inl e ↦ rw e (ends mine r refl refl (λ g j ok. ok) refl refl)
      | inr e ↦ rw e (within refl refl refl)
    ]
    finish-Kind (swinging mine r c) = elim (Bool-cases (m.anchor == c)) [
      | inl e ↦ rw e (ends mine r refl refl (λ g j ok. ok) refl refl)
      | inr e ↦ rw e (within refl refl refl)
    ]
    finish-Kind p = within refl refl refl

    pub access-Kind : (t : Turn o) (p : Pc o) → KindOf t p (access o n i t m p)
    unfolding access
    access-Kind registers p = register-Kind p
    access-Kind (starts op) idle = start-Kind op idle refl
    access-Kind (starts op) (returned mine r) = start-Kind op (returned mine r) refl
    access-Kind (starts op) p = within refl refl refl
    access-Kind scans p = scan-Kind p
    access-Kind links p = link-Kind p
    access-Kind publishes p = publish-Kind p
    access-Kind finishes p = finish-Kind p
