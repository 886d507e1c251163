-- ===== src/Base/Less.antt =====
-- common.go: the comparison functions that callers hand to the ordered structures.
use mathlib.Core.Path.{◌≡◌}
use mathlib.Core.Bool.{Bool, true, false}
use native.Mathlib.Omega.{arith}
use lockfree.Base.Tests.{ltb}

-- `type Less[T any] func(a, b T) bool`
abbrev pub Less {ℓ} : Type ℓ → Type ℓ
Less A = A → A → Bool

-- What "returns true if a < b" asks of it: a strict weak order.
pub record IsStrictOrder {ℓ} {A : Type ℓ} (less : Less A) : Type ℓ where
  pub asym : (a b : A) → less a b ≡ true → less b a ≡ false
  pub cotrans : (a b c : A) → less a b ≡ false → less b c ≡ false → less a c ≡ false

pub ltb-IsStrictOrder : IsStrictOrder ltb
ltb-IsStrictOrder = ground arith

module _ {ℓ} {A : Type ℓ} {less : Less A} (order : IsStrictOrder less) where
  -- a < b and b ≤ c give a < c.
  pub lt-lt_of_le : (a b c : A) → less a b ≡ true → less c b ≡ false → less a c ≡ true
  lt-lt_of_le a b c h k = ground (arith, order.cotrans a c b)

  -- a ≤ b and b < c give a < c.
  pub le-lt_of_lt : (a b c : A) → less b a ≡ false → less b c ≡ true → less a c ≡ true
  le-lt_of_lt a b c h k = ground (arith, order.cotrans b a c)

  pub lt_trans : (a b c : A) → less a b ≡ true → less b c ≡ true → less a c ≡ true
  lt_trans a b c h k = lt-lt_of_le a b c h (order.asym b c k)

  pub lt_irrefl : (a : A) → less a a ≡ false
  lt_irrefl a = ground (arith, order.asym a a)
