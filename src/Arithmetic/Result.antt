-- ===== src/Arithmetic/Result.antt =====
-- arithmetic.go: what AddFloat64 returns.
use mathlib.Core.Path.{subst}
use native.Mathlib.Decide.{ℕ_discrete}
use lockfree.Base.{
  ℕ, ◌≡◌, refl, sym, ap, ◌∙◌, inl, inr, List, [], ◌∷◌, ◌==◌, Bool-cases, update_self, update_ne,
}
use lockfree.Arithmetic.{Floats, Pc, idle, adding, loaded, returned, System, access, turn, run}

module _ (fl : Floats) where
  open fl use {Float, zero_float, add, to_bits, from_bits}

  -- A call that has returned has returned the zero value.
  abbrev pub ReturnsZero : Pc fl → Type 0
  ReturnsZero (returned new) = new ≡ zero_float
  ReturnsZero p = Unit

  access-ReturnsZero :
      (d : Float) (word : ℕ) (p : Pc fl) → ReturnsZero p → ReturnsZero (access fl d word p).1
  unfolding access
  access-ReturnsZero d word idle h = tt
  access-ReturnsZero d word (returned new) h = tt
  access-ReturnsZero d word (adding delta) h = tt
  access-ReturnsZero d word (loaded delta old) h = elim (Bool-cases (word == to_bits old)) [
    | inl same ↦ rw same refl
    | inr moved ↦ rw moved tt
  ]

  -- If no call has returned anything else before a schedule, every call that has returned at its
  -- end has returned the zero value, whatever the sum.
  pub run-ReturnsZero :
      (ts : List (ℕ × Float)) (s : System fl)
      → ((i : ℕ) → ReturnsZero (s.pc i))
      → (i : ℕ) → ReturnsZero ((run fl s ts).1.pc i)
  unfolding run turn
  run-ReturnsZero [] s h i = h i
  run-ReturnsZero ((j, d) ∷ ts) s h i =
      run-ReturnsZero ts (turn fl s j d).0
        (λ k. elim (ℕ_discrete j k) [
          | yes same ↦
              subst ReturnsZero (sym (ap (turn fl s j d).0.pc (sym same) ∙ update_self s.pc j _))
                (access-ReturnsZero d s.word (s.pc j) (h j))
          | no other ↦
              subst ReturnsZero (sym (update_ne s.pc (access fl d s.word (s.pc j)).1 other)) (h k)
        ])
        i
