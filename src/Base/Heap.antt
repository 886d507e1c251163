-- ===== src/Base/Heap.antt =====
-- Families indexed by a number (an address, a goroutine): update at one index.
use Prim.Native.Nat.{ℕ, zero, suc, ◌+◌, ◌*◌, ◌≤◌, ◌<◌}
use native.Mathlib.Nat.{mul-suc}
use mathlib.Core.Path.{◌≡◌, refl, ap, subst, fun_ext}
use native.Mathlib.Decide.{ℕ_discrete}
use mathlib.Core.Logic.{◌≢◌}
use native.Mathlib.Omega.{arith}
use lockfree.Base.Tests.{◌==◌, if◌then◌else◌}

module _ {ℓ} {A : Type ℓ} where
  abbrev pub update : (ℕ → A) → ℕ → A → ℕ → A
  update f p v q = if p == q then v else f q

  pub update_self : (f : ℕ → A) (p : ℕ) (v : A) → update f p v p ≡ v
  update_self f p v = ground arith

  pub update_ne : (f : ℕ → A) {p q : ℕ} (v : A) → p ≢ q → update f p v q ≡ f q
  update_ne f v h = ground arith

-- To store what is there changes nothing.
pub update_same {ℓ} : {A : Type ℓ} (f : ℕ → A) (a : ℕ) {v : A} → f a ≡ v → update f a v ≡ f
update_same f a {v} e =
    fun_ext (λ b. elim (ℕ_discrete a b) [
      | yes same ↦ ground (arith, ap f same)
      | no other ↦ ground arith
    ])

-- The sum of the first `n` members.
unfoldable pub total : (ℕ → ℕ) → ℕ → ℕ
total f zero = 0
total f (suc n) = total f n + f n

pub total-at_most : (f : ℕ → ℕ) (b n : ℕ) → ((i : ℕ) → f i ≤ b) → total f n ≤ b * n
unfolding total
total-at_most f b zero h = omega arith
total-at_most f b (suc n) h =
    let rest = total-at_most f b n h in let last = h n in omega (arith, mul-suc b n)

total-same : (f g : ℕ → ℕ) (n : ℕ) → ((i : ℕ) → i < n → f i ≡ g i) → total f n ≡ total g n
unfolding total
total-same f g zero h = refl
total-same f g (suc n) h =
    let rest = total-same f g n (λ i lt. h i (omega arith)) in
    let last = h n (omega arith) in omega arith

-- A family that is lower at `i`, and the same elsewhere.
pub total-less :
    (f g : ℕ → ℕ) (n i : ℕ)
    → i < n
    → g i < f i
    → ((j : ℕ) → i ≢ j → f j ≡ g j)
    → total g n < total f n
unfolding total
total-less f g zero i lt d e = absurd (omega arith)
total-less f g (suc n) i lt d e = elim (ℕ_discrete i n) [
  | yes at ↦
      let same = total-same f g n (λ j l. e j (λ z. omega arith)) in
      let low : g n < f n = subst (λ k. g k < f k) at d in omega arith
  | no ne ↦ let rest = total-less f g n i (omega arith) d e in let same = e n ne in omega arith
]
