-- ===== src/Base/Bits.antt =====
-- `x & mask` where the mask is `2 ^ k - 1`, as in wf/ringbuffer.go.
use Prim.Native.Nat.{
  ℕ, zero, suc, ◌+◌, ◌*◌, ◌/◌, ◌%◌, ◌^◌, ◌-◌, ◌≤◌, ◌<◌, min, bit_and, digits, bit_and-bitwise,
}
use mathlib.Core.Path.{◌≡◌, ◌∙◌}
use native.Mathlib.Omega.{arith}
use native.Mathlib.Nat.{pow-suc}

pub pow_pos : (k : ℕ) → 0 < 2 ^ k
pow_pos zero = omega arith
pow_pos (suc k) = let h = pow_pos k in omega (arith, pow-suc 2 k)

-- A remainder by an even number, from that of the half.
pub mod_twice : (x d : ℕ) → 0 < d → x % (d * 2) ≡ x / 2 % d * 2 + x % 2
mod_twice x d h = grind arith

-- On `n` binary digits, from the definition behind the native operation.
mask_digits : (n k x : ℕ) → x ≤ n → digits (λ b. zero) min n x (2 ^ k - 1) ≡ x % 2 ^ k
mask_digits zero k zero le = let h = pow_pos k in omega arith
mask_digits zero k (suc x) le = absurd (omega arith)
mask_digits (suc n) k zero le = let h = pow_pos k in omega arith
mask_digits (suc n) zero (suc x) le =
    let high = mask_digits n 0 (suc x / 2) (omega arith) in omega arith
mask_digits (suc n) (suc k) (suc x) le =
    let high = mask_digits n k (suc x / 2) (omega arith) in
    let h = pow_pos k in
    let half : (2 ^ suc k - 1) / 2 ≡ 2 ^ k - 1 = omega (arith, pow-suc 2 k) in
    let odd : (2 ^ suc k - 1) % 2 ≡ 1 = omega (arith, pow-suc 2 k) in
    rw (half, odd, high, pow-suc 2 k, mod_twice (suc x) (2 ^ k) h) (omega arith)

-- A mask of `k` ones keeps the remainder by `2 ^ k`.
pub bit_and_mask : (k x : ℕ) → bit_and x (2 ^ k - 1) ≡ x % 2 ^ k
bit_and_mask k x = bit_and-bitwise x (2 ^ k - 1) ∙ mask_digits x k x (omega arith)
