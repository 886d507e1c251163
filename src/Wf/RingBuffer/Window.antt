-- ===== src/Wf/RingBuffer/Window.antt =====
-- wf/ringbuffer.go: the slots from one cursor on, going round the buffer.
use native.Mathlib.Decide.{dec_lt}
use native.Mathlib.Nat.{mod-add-mod, div-add-mod', mul-le-mul_right, add-zero}
use mathlib.Core.Path.{ap₂}
use lockfree.Base.{
  ℕ, zero, suc, ◌+◌, ◌/◌, ◌%◌, ◌<◌, ◌≡◌, ◌≢◌, refl, sym, ap, ◌∙◌, List, [], ◌∷◌, ◌++◌, arith,
  length, set, get_or, get_or-set_ne,
}

module _ {ℓ} {A : Type ℓ} (blank : A) (cap : ℕ) where
  abbrev pub window : List A → ℕ → ℕ → List A
  window buf h zero = []
  window buf h (suc n) = get_or buf (h % cap) blank ∷ window buf (h + 1) n

  pub length-window : (buf : List A) (h n : ℕ) → length (window buf h n) ≡ n
  length-window buf h zero = refl
  length-window buf h (suc n) = ap suc (length-window buf (h + 1) n)

  -- Only the remainder of the cursor counts.
  pub window_congr :
      (buf : List A) (a b n : ℕ) → a % cap ≡ b % cap → window buf a n ≡ window buf b n
  window_congr buf a b zero e = refl
  window_congr buf a b (suc n) e = rw e (
      ap (λ (xs : List A). get_or buf (b % cap) blank ∷ xs)
        (window_congr buf (a + 1) (b + 1) n next))
    where
      next : (a + 1) % cap ≡ (b + 1) % cap
      next = sym (mod-add-mod a cap 1) ∙ ap (λ (r : ℕ). (r + 1) % cap) e ∙ mod-add-mod b cap 1

  -- One slot more is one element more at the end.
  pub window_snoc :
      (buf : List A) (h n : ℕ)
      → window buf h (suc n) ≡ window buf h n ++ (get_or buf ((h + n) % cap) blank ∷ [])
  window_snoc buf h zero = rw add-zero refl
  window_snoc buf h (suc n) =
      ap (λ (xs : List A). get_or buf (h % cap) blank ∷ xs)
        (window_snoc buf (h + 1) n
          ∙ ap (λ (k : ℕ). window buf (h + 1) n ++ (get_or buf (k % cap) blank ∷ [])) (omega arith))

  -- A write to a slot outside the window leaves it alone.
  pub window-set_ne :
      (buf : List A) (h n i : ℕ) (x : A)
      → ((j : ℕ) → j < n → i ≢ (h + j) % cap)
      → window (set buf i x) h n ≡ window buf h n
  window-set_ne buf h zero i x out = refl
  window-set_ne buf h (suc n) i x out =
      ap₂ ◌∷◌
        (get_or-set_ne buf x blank
          (λ e. out 0 (omega arith) (e ∙ ap (λ (k : ℕ). k % cap) (omega arith))))
        (window-set_ne buf (h + 1) n i x
          (λ j lt e. out (suc j) (omega arith) (e ∙ ap (λ (k : ℕ). k % cap) (omega arith))))

-- Fewer than `cap` steps round the buffer do not come back to the start.
pub add-mod-ne : (h j n cap : ℕ) → j < n → n < cap + j → (h + n) % cap ≢ (h + j) % cap
add-mod-ne h j n cap lt near e =
    let p = div-add-mod' (h + j) cap in
    let q = div-add-mod' (h + n) cap in
    elim (dec_lt ((h + j) / cap) ((h + n) / cap)) [
      | yes up ↦ omega (
        arith,
        p,
        q,
        mul-le-mul_right {m = (h + j) / cap + 1} {n = (h + n) / cap} cap (omega arith),
      )
      | no up ↦
          omega (
            arith,
            p,
            q,
            mul-le-mul_right {m = (h + n) / cap} {n = (h + j) / cap} cap (omega arith),
          )
    ]
