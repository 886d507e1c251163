-- ===== src/Lf/SplitHashMap/Order.antt =====
-- lf/splithashmap.go: reversed bits put the keys of a bucket behind its sentinel.
use native.Mathlib.Nat.{pow-suc}
use lockfree.Base.{
  ℕ, zero, suc, ◌+◌, ◌*◌, ◌/◌, ◌%◌, ◌-◌, ◌^◌, ◌≤◌, ◌<◌, ◌≡◌, ◌⊎◌, inl, inr, refl, ap, ◌∙◌,
  Bool-cases, ◌==◌, arith,
}
use lockfree.Base.Bits.{pow_pos, mod_twice}
use lockfree.Lf.SplitHashMap.{reverse_bits}

bit_times : (x d : ℕ) → x % 2 * d ≤ d
bit_times x d = grind arith

pub reverse_bits-lt : (w x : ℕ) → reverse_bits w x < 2 ^ w
unfolding reverse_bits
reverse_bits-lt zero x = omega arith
reverse_bits-lt (suc w) x =
    let h = reverse_bits-lt w (x / 2) in let b = bit_times x (2 ^ w) in omega (arith, pow-suc 2 w)

reverse_bits-zero : (w : ℕ) → reverse_bits w 0 ≡ 0
unfolding reverse_bits
reverse_bits-zero zero = refl
reverse_bits-zero (suc w) = let h = reverse_bits-zero w in omega arith

pub bit_cases : (x : ℕ) → (x % 2 ≡ 0) ⊎ (x % 2 ≡ 1)
bit_cases x = elim (Bool-cases (x % 2 == 0)) [
  | inl even ↦ inl (ground arith)
  | inr odd ↦ inr (ground arith)
]

-- One bit more.
reverse_low :
    (w j x : ℕ)
    → reverse_bits (suc w) (x % 2 ^ suc j) ≡ x % 2 * 2 ^ w + reverse_bits w (x / 2 % 2 ^ j)
unfolding reverse_bits
reverse_low w j x =
    let low : x % 2 ^ suc j ≡ x / 2 % 2 ^ j * 2 + x % 2 =
      ap (λ (d : ℕ). x % d) (pow-suc 2 j) ∙ mod_twice x (2 ^ j) (pow_pos j) in
    let odd : x % 2 ^ suc j % 2 ≡ x % 2 = omega arith in
    let half : x % 2 ^ suc j / 2 ≡ x / 2 % 2 ^ j = omega arith in rw (odd, half) refl

room_zero : (w : ℕ) → 2 ^ (w - 0) ≡ 2 ^ w
room_zero w = ap (λ (e : ℕ). 2 ^ e) (omega arith)

room_suc : (w j : ℕ) → 2 ^ (suc w - suc j) ≡ 2 ^ (w - j)
room_suc w j = ap (λ (e : ℕ). 2 ^ e) (omega arith)

-- The reversal of the low `j` bits is at most that of the whole, and less than 2 ^ (w - j) below it.
pub reverse_bits-window :
    (w j x : ℕ)
    → j ≤ w
    → (reverse_bits w (x % 2 ^ j) ≤ reverse_bits w x)
      × (reverse_bits w x < reverse_bits w (x % 2 ^ j) + 2 ^ (w - j))
unfolding reverse_bits
reverse_bits-window w zero x le =
    let h = reverse_bits-lt w x in
    let z = reverse_bits-zero w in
    let low : x % 2 ^ 0 ≡ 0 = omega arith in
    let e = room_zero w in rw (low, e) (omega arith, omega arith)
reverse_bits-window zero (suc j) x le = absurd (omega arith)
reverse_bits-window (suc w) (suc j) x le =
    let (lo, hi) = reverse_bits-window w j (x / 2) (omega arith) in
    let e = room_suc w j in let low = reverse_low w j x in (omega arith, omega arith)

-- A reversal of `j` bits leaves 2 ^ (w - j) of room.
pub reverse_bits-room : (w j y : ℕ) → j ≤ w → y < 2 ^ j → reverse_bits w y + 2 ^ (w - j) ≤ 2 ^ w
unfolding reverse_bits
reverse_bits-room w zero y le lt =
    let z = reverse_bits-zero w in
    let none : y ≡ 0 = omega arith in let e = room_zero w in rw none (omega arith)
reverse_bits-room zero (suc j) y le lt = absurd (omega arith)
reverse_bits-room (suc w) (suc j) y le lt =
    let h = reverse_bits-room w j (y / 2) (omega arith) (omega (arith, pow-suc 2 j)) in
    let b = bit_times y (2 ^ w) in let e = room_suc w j in omega (arith, pow-suc 2 w)

-- Of two reversals of `j` bits the greater one is 2 ^ (w - j) above the other, or more.
pub reverse_bits-apart :
    (w j x y : ℕ)
    → j ≤ w
    → x < 2 ^ j
    → y < 2 ^ j
    → reverse_bits w x < reverse_bits w y
    → reverse_bits w x + 2 ^ (w - j) ≤ reverse_bits w y
unfolding reverse_bits
reverse_bits-apart w zero x y le lt lt' h =
    let none : x ≡ y = omega arith in let same = ap (reverse_bits w) none in absurd (omega arith)
reverse_bits-apart zero (suc j) x y le lt lt' h = absurd (omega arith)
reverse_bits-apart (suc w) (suc j) x y le lt lt' h =
    let e = room_suc w j in
    let room = reverse_bits-room w j (x / 2) (omega arith) (omega (arith, pow-suc 2 j)) in
    let lo = reverse_bits-lt w (y / 2) in
    let next =
      reverse_bits-apart w j (x / 2) (y / 2) (omega arith) (omega (arith, pow-suc 2 j))
        (omega (arith, pow-suc 2 j)) in
    elim (bit_cases x) [
      | inl x0 ↦ elim (bit_cases y) [
        | inl y0 ↦
            let x_bit = ap (λ (b : ℕ). b * 2 ^ w) x0 in
            let y_bit = ap (λ (b : ℕ). b * 2 ^ w) y0 in let g = next (omega arith) in omega arith
        | inr y1 ↦
            let x_bit = ap (λ (b : ℕ). b * 2 ^ w) x0 in
            let y_bit = ap (λ (b : ℕ). b * 2 ^ w) y1 in omega arith
      ]
      | inr x1 ↦ elim (bit_cases y) [
        | inl y0 ↦
            let x_bit = ap (λ (b : ℕ). b * 2 ^ w) x1 in
            let y_bit = ap (λ (b : ℕ). b * 2 ^ w) y0 in absurd (omega arith)
        | inr y1 ↦
            let x_bit = ap (λ (b : ℕ). b * 2 ^ w) x1 in
            let y_bit = ap (λ (b : ℕ). b * 2 ^ w) y1 in let g = next (omega arith) in omega arith
      ]
    ]

-- To clear the highest bit makes the reversal less.
pub reverse_bits-clear :
    (w j x : ℕ) → j < w → 2 ^ j ≤ x → x < 2 ^ suc j → reverse_bits w (x % 2 ^ j) < reverse_bits w x
unfolding reverse_bits
reverse_bits-clear zero j x lt lo hi = absurd (omega arith)
reverse_bits-clear (suc w) zero x lt lo hi =
    let one : x ≡ 1 = omega arith in
    let low : x % 2 ^ 0 ≡ 0 = omega arith in
    let z = reverse_bits-zero w in let p = pow_pos w in rw (low, one) (omega arith)
reverse_bits-clear (suc w) (suc j) x lt lo hi =
    let h =
      reverse_bits-clear w j (x / 2) (omega arith) (omega (arith, pow-suc 2 j))
        (omega (arith, pow-suc 2 (suc j))) in
    let low = reverse_low w j x in omega arith
