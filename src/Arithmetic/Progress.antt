-- ===== src/Arithmetic/Progress.antt =====
-- arithmetic.go: the progress of calls of AddFloat64 that retry.
use lockfree.Base.{
  ℕ, suc, ◌*◌, ◌^◌, ◌≤◌, ◌<◌, ◌≡◌, ◌⊎◌, inl, inr, refl, sym, ap, Option, some, Bool-cases, List, [],
  ◌∷◌, ◌==◌, ==_iff, if◌then◌else◌, length, get_elem?, All, update, update_self, update_ne, total,
  total-at_most, total-less, arith,
}
use lockfree.Arithmetic.{Floats, Pc, idle, adding, loaded, returned, System, access, turn, run}

module _ (fl : Floats) (back : (b : ℕ) → b < 2 ^ 64 → fl.to_bits (fl.from_bits b) ≡ b) where
  open fl use {Float, to_bits, from_bits}

  -- How many accesses a goroutine can make, while the word stays, before one of them adds.
  abbrev rank : ℕ → Pc fl → ℕ
  rank word idle = 2
  rank word (returned new) = 2
  rank word (adding delta) = 1
  rank word (loaded delta old) = if word == to_bits old then 0 else 2

  rank-le : (word : ℕ) (p : Pc fl) → rank word p ≤ 2
  rank-le word idle = omega arith
  rank-le word (returned new) = omega arith
  rank-le word (adding delta) = omega arith
  rank-le word (loaded delta old) = ground arith

  abbrev Nears : ℕ → Pc fl → ℕ × Pc fl × Option Float → Type 0
  Nears word p (word', q, added) =
      ((d : Float) × (added ≡ some d)) ⊎ ((word' ≡ word) × (rank word q < rank word p))

  access-Nears :
      (d : Float) (word : ℕ) (p : Pc fl) → word < 2 ^ 64 → Nears word p (access fl d word p)
  unfolding access
  access-Nears d word idle lt = inr (refl, omega arith)
  access-Nears d word (returned new) lt = inr (refl, omega arith)
  access-Nears d word (adding delta) lt =
      let same = (==_iff word (to_bits (from_bits word))).1 (sym (back word lt)) in
      inr (refl, rw same (omega arith))
  access-Nears d word (loaded delta old) lt = elim (Bool-cases (word == to_bits old)) [
    | inl same ↦ rw same (inl (delta, refl))
    | inr moved ↦ rw moved (inr (refl, omega arith))
  ]

  abbrev left : System fl → ℕ → ℕ
  left s n = total (λ i. rank s.word (s.pc i)) n

  turn-Nears :
      (s : System fl) (n i : ℕ) (d : Float)
      → i < n
      → s.word < 2 ^ 64
      → ((x : Float) × ((turn fl s i d).1 ≡ some x))
        ⊎ (((turn fl s i d).0.word ≡ s.word) × (left (turn fl s i d).0 n < left s n))
  unfolding turn
  turn-Nears s n i d lt fits = elim (access-Nears d s.word (s.pc i) fits) [
    | inl effect ↦ inl effect
    | inr (same, less) ↦
        let q = (access fl d s.word (s.pc i)).1 in
        let at_i : rank (access fl d s.word (s.pc i)).0 (update s.pc i q i) < rank s.word (s.pc i) =
          rw (same, update_self s.pc i q) less in
        inr (
          same,
          total-less (λ j. rank s.word (s.pc j))
              (λ j. rank (access fl d s.word (s.pc i)).0 (update s.pc i q j)) n i lt at_i
              (λ j ne. rw (same, update_ne s.pc q ne) refl),
        )
  ]

  run-effect :
      (ts : List (ℕ × Float)) (s : System fl) (n : ℕ)
      → All (λ t. t.0 < n) ts
      → s.word < 2 ^ 64
      → left s n < length ts
      → (k : ℕ) × (d : Float) × (get_elem? (run fl s ts).0 k ≡ some (some d))
  unfolding run
  run-effect [] s n ok fits lt = absurd (omega arith)
  run-effect ((i, d) ∷ ts) s n (lt_n, ok) fits lt = elim (turn-Nears s n i d lt_n fits) [
    | inl (x, added) ↦ (0, x, ap (λ (o : Option Float). some o) added)
    | inr (same, nears) ↦
        let (k, x, at) = run-effect ts (turn fl s i d).0 n ok (rw same fits) (omega arith) in
        (suc k, x, at)
  ]

  -- If `Float64bits` undoes `Float64frombits` on 64-bit words, then from any state with such a word, of
  -- more than 2 * n accesses that n goroutines make in whatever order, one adds to the word.
  pub run-adds :
      (ts : List (ℕ × Float)) (s : System fl) (n : ℕ)
      → All (λ t. t.0 < n) ts
      → s.word < 2 ^ 64
      → 2 * n < length ts
      → (k : ℕ) × (d : Float) × (get_elem? (run fl s ts).0 k ≡ some (some d))
  run-adds ts s n ok fits lt =
      let most = total-at_most (λ i. rank s.word (s.pc i)) 2 n (λ i. rank-le s.word (s.pc i)) in
      run-effect ts s n ok fits (omega arith)
