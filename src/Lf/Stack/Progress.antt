-- ===== src/Lf/Stack/Progress.antt =====
-- lf/stack.go: the progress of calls that retry.
use lockfree.Base.{
  ℕ, suc, ◌*◌, ◌≤◌, ◌<◌, ◌≡◌, ◌≢◌, ◌⊎◌, inl, inr, refl, Option, none, some, Bool-cases, true, List,
  [], ◌∷◌, if◌then◌else◌, length, get_elem?, All, update, update_self, update_ne, total,
  total-at_most, total-less, arith,
}
use lockfree.Lf.Stack.Lifo.{Event, tau}
use lockfree.Lf.Stack.{
  Stack, Call, push_call, pop_call, Pc, idle, pushing, push_loaded, push_stored, push_done, popping,
  pop_empty, pop_loaded, pop_next, pop_done, same_pointer, look, access, System, turn, run,
}

same_pointer_self : (p : Option ℕ) → same_pointer p p ≡ true
same_pointer_self none = refl
same_pointer_self (some a) = ground arith

module _ {ℓ} {A : Type ℓ} where
  -- How many accesses a goroutine can make, while no compare-and-swap changes `top`, before one of them
  -- takes effect.
  abbrev rank : Option ℕ → Pc A → ℕ
  rank top (idle r) = 3
  rank top (pushing item) = 2
  rank top (push_loaded item t) = if same_pointer top t then 1 else 4
  rank top (push_stored item t) = if same_pointer top t then 0 else 3
  rank top push_done = 4
  rank top popping = 2
  rank top pop_empty = 4
  rank top (pop_loaded a) = if same_pointer top (some a) then 1 else 4
  rank top (pop_next a nx) = if same_pointer top (some a) then 0 else 3
  rank top (pop_done v) = 4

  rank-le : (top : Option ℕ) (p : Pc A) → rank top p ≤ 4
  rank-le top (idle r) = omega arith
  rank-le top (pushing item) = omega arith
  rank-le top (push_loaded item t) = ground arith
  rank-le top (push_stored item t) = ground arith
  rank-le top push_done = omega arith
  rank-le top popping = omega arith
  rank-le top pop_empty = omega arith
  rank-le top (pop_loaded a) = ground arith
  rank-le top (pop_next a nx) = ground arith
  rank-le top (pop_done v) = omega arith

  -- An access takes effect, or leaves `top` as it is and brings its goroutine nearer to one that does.
  abbrev Nears : Stack A → Pc A → Stack A × Pc A × Event A → Type ℓ
  Nears s p (m, q, e) = (e ≢ tau) ⊎ ((m.top ≡ s.top) × (rank s.top q < rank s.top p))

  look-Nears : (s : Stack A) (top : Option ℕ) → s.top ≡ top → Nears s popping (look s top)
  look-Nears s none e = inl (λ z. cc)
  look-Nears s (some a) e =
      let same = same_pointer_self (some a) in inr (refl, rw (e, same) (omega arith))

  access-Nears : (c : Call A) (s : Stack A) (p : Pc A) → Nears s p (access c s p)
  unfolding access
  access-Nears (push_call v) s (idle r) = inr (refl, omega arith)
  access-Nears pop_call s (idle r) = inr (refl, omega arith)
  access-Nears c s (pushing item) = inr (refl, rw (same_pointer_self s.top) (omega arith))
  access-Nears c s (push_loaded item t) = inr (refl, ground arith)
  access-Nears c s (push_stored item t) = elim (Bool-cases (same_pointer s.top t)) [
    | inl same ↦ rw same (inl (λ z. cc))
    | inr other ↦ rw other (inr (refl, omega arith))
  ]
  access-Nears c s push_done = inr (refl, omega arith)
  access-Nears c s popping = look-Nears s s.top refl
  access-Nears c s pop_empty = inr (refl, omega arith)
  access-Nears c s (pop_loaded a) = inr (refl, ground arith)
  access-Nears c s (pop_next a nx) = elim (Bool-cases (same_pointer s.top (some a))) [
    | inl same ↦ rw same (inl (λ z. cc))
    | inr other ↦ rw other (inr (refl, omega arith))
  ]
  access-Nears c s (pop_done v) = inr (refl, omega arith)

  abbrev left : System A → ℕ → ℕ
  left s n = total (λ i. rank s.stack.top (s.pc i)) n

  -- The same of the whole system: `left` counts what can be made without an effect.
  turn-Nears :
      (s : System A) (n i : ℕ) (c : Call A)
      → i < n
      → ((turn s i c).1 ≢ tau) ⊎ (left (turn s i c).0 n < left s n)
  unfolding turn
  turn-Nears s n i c lt = elim (access-Nears c s.stack (s.pc i)) [
    | inl effect ↦ inl effect
    | inr (same, less) ↦
        let q = (access c s.stack (s.pc i)).1 in
        let at_i : rank (access c s.stack (s.pc i)).0.top (update s.pc i q i)
            < rank s.stack.top (s.pc i) =
          rw (same, update_self s.pc i q) less in
        inr (
          total-less (λ j. rank s.stack.top (s.pc j))
            (λ j. rank (access c s.stack (s.pc i)).0.top (update s.pc i q j)) n i lt at_i
            (λ j ne. rw (same, update_ne s.pc q ne) refl))
  ]

  run-effect :
      (ts : List (ℕ × Call A)) (s : System A) (n : ℕ)
      → All (λ t. t.0 < n) ts
      → left s n < length ts
      → (k : ℕ) × (e : Event A) × (get_elem? (run s ts).0 k ≡ some e) × (e ≢ tau)
  unfolding run
  run-effect [] s n ok lt = absurd (omega arith)
  run-effect ((i, c) ∷ ts) s n (lt_n, ok) lt = elim (turn-Nears s n i c lt_n) [
    | inl effect ↦ (0, (turn s i c).1, refl, effect)
    | inr nears ↦
        let (k, e, at, effect) = run-effect ts (turn s i c).0 n ok (omega arith) in
        (suc k, e, at, effect)
  ]

  -- From any state, of more than 4 * n accesses that n goroutines make in whatever order, one takes
  -- effect: it pushes a value, takes one, or finds the stack empty.
  pub run-progress :
      (ts : List (ℕ × Call A)) (s : System A) (n : ℕ)
      → All (λ t. t.0 < n) ts
      → 4 * n < length ts
      → (k : ℕ) × (e : Event A) × (get_elem? (run s ts).0 k ≡ some e) × (e ≢ tau)
  run-progress ts s n ok lt =
      let most =
        total-at_most (λ i. rank s.stack.top (s.pc i)) 4 n (λ i. rank-le s.stack.top (s.pc i)) in
      run-effect ts s n ok (omega arith)
