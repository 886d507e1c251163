-- ===== src/Lf/SplitHashMap/Sentinels.antt =====
-- lf/splithashmap.go: where the sentinels of the buckets stand among the keys.
use native.Mathlib.Nat.{
  pow-suc, mod-lt, mod-eq_of_lt, mod-eq-sub-mod, pow-le-pow_right, add-mul-mod_self_right,
}
use native.Mathlib.Decide.{dec_lt}
use lockfree.Base.{
  ℕ, zero, suc, ◌+◌, ◌*◌, ◌/◌, ◌%◌, ◌-◌, ◌^◌, ◌≤◌, ◌<◌, ◌≡◌, inl, inr, refl, sym, ap, ◌∙◌, some,
  Bool-cases, false, ltb, ◌==◌, arith,
}
use lockfree.Base.Bits.{pow_pos}
use lockfree.Lf.SplitHashMap.{
  reverse_bits, len_bits, set_high, so_regular, so_dummy, parent_bucket, bucket_index,
}
use lockfree.Lf.SplitHashMap.Order.{
  bit_cases, reverse_bits-window, reverse_bits-apart, reverse_bits-clear,
}

-- The highest bit becomes the lowest.
reverse_bits-even : (w x : ℕ) → x < 2 ^ w → reverse_bits (suc w) x % 2 ≡ 0
unfolding reverse_bits
reverse_bits-even zero x lt = let none : x ≡ 0 = omega arith in rw none refl
reverse_bits-even (suc w) x lt =
    let h = reverse_bits-even w (x / 2) (omega (arith, pow-suc 2 w)) in
    elim (bit_cases x) [
      | inl x0 ↦ let bit = ap (λ (b : ℕ). b * 2 ^ suc w) x0 in omega (arith, pow-suc 2 w)
      | inr x1 ↦ let bit = ap (λ (b : ℕ). b * 2 ^ suc w) x1 in omega (arith, pow-suc 2 w)
    ]

reverse_bits-odd : (w x : ℕ) → 2 ^ w ≤ x → x < 2 ^ suc w → reverse_bits (suc w) x % 2 ≡ 1
unfolding reverse_bits
reverse_bits-odd zero x le lt = let one : x ≡ 1 = omega arith in rw one refl
reverse_bits-odd (suc w) x le lt =
    let h =
      reverse_bits-odd w (x / 2) (omega (arith, pow-suc 2 w)) (omega (arith, pow-suc 2 (suc w))) in
    elim (bit_cases x) [
      | inl x0 ↦ let bit = ap (λ (b : ℕ). b * 2 ^ suc w) x0 in omega (arith, pow-suc 2 w)
      | inr x1 ↦ let bit = ap (λ (b : ℕ). b * 2 ^ suc w) x1 in omega (arith, pow-suc 2 w)
    ]

-- The last sentinel of `j` bits that is not behind a key is that of its low bits.
last_before :
    (w j x c : ℕ)
    → j ≤ w
    → c < 2 ^ j
    → reverse_bits w c ≤ reverse_bits w x
    → reverse_bits w c ≤ reverse_bits w (x % 2 ^ j)
last_before w j x c le lt before =
    let (lo, hi) = reverse_bits-window w j x le in
    elim (dec_lt (reverse_bits w (x % 2 ^ j)) (reverse_bits w c)) [
      | yes behind ↦
          let far =
            reverse_bits-apart w j (x % 2 ^ j) c le (mod-lt x (omega (arith, pow_pos j))) lt
              behind in
          omega arith
      | no ok ↦ omega arith
    ]

pow_split : (k j : ℕ) → 2 ^ (k + j) ≡ 2 ^ k * 2 ^ j
pow_split k zero = let e : k + 0 ≡ k = omega arith in rw e (omega arith)
pow_split k (suc j) =
    let h = pow_split k j in
    let e : k + suc j ≡ suc (k + j) = omega arith in
    rw (e, pow-suc 2 (k + j), h) (grind (arith, pow-suc 2 j))

-- The added high bit is not among the low ones.
set_high-low : (j h : ℕ) → j ≤ 16 → set_high h % 2 ^ j ≡ h % 2 ^ j
set_high-low j h le = elim (Bool-cases (ltb h (2 ^ 31))) [
  | inl low ↦
      let e : 31 - j + j ≡ 31 = omega arith in
      let exponent : 2 ^ 31 ≡ 2 ^ (31 - j + j) = ap (λ (e : ℕ). 2 ^ e) (sym e) in
      let split : 2 ^ 31 ≡ 2 ^ (31 - j) * 2 ^ j = exponent ∙ pow_split (31 - j) j in
      rw low
        (ap (λ (p : ℕ). (h + p) % 2 ^ j) split ∙ add-mul-mod_self_right h (2 ^ (31 - j)) (2 ^ j))
  | inr high ↦ rw high refl
]

pub bucket-lt : (j h : ℕ) → j ≤ 16 → h % 2 ^ j < 2 ^ 16
bucket-lt j h le =
    let lt = mod-lt h (pow_pos j) in
    let small : 2 ^ j ≤ 2 ^ 16 = pow-le-pow_right (omega arith) le in omega arith

pub so_dummy-even : (b : ℕ) → b < 2 ^ 16 → so_dummy b % 2 ≡ 0
unfolding so_dummy
so_dummy-even b lt = reverse_bits-even 31 (b % 2 ^ 32) (omega arith)

pub so_regular-odd : (h : ℕ) → h < 2 ^ 32 → so_regular h % 2 ≡ 1
unfolding so_regular
so_regular-odd h lt = reverse_bits-odd 31 (set_high h) (ground arith) (ground arith)

small_dummy : (b : ℕ) → b < 2 ^ 16 → so_dummy b ≡ reverse_bits 32 b
unfolding so_dummy
small_dummy b lt = ap (reverse_bits 32) (mod-eq_of_lt (omega arith))

regular_bits : (h : ℕ) → so_regular h ≡ reverse_bits 32 (set_high h)
unfolding so_regular
regular_bits h = refl

-- Let the table have 2 ^ j buckets, at most 2 ^ 16, and let `h` be the 32-bit hash of a key. The
-- sentinel of the key's bucket stands before the key's node; and it is the last one that does: the
-- sentinel of any bucket that stands before the node is not behind it.
pub so_dummy-IsLast :
    (j h : ℕ)
    → j ≤ 16
    → h < 2 ^ 32
    → (so_dummy (bucket_index h (2 ^ j)) < so_regular h)
      × ((c : ℕ)
          → c < 2 ^ j
          → so_dummy c < so_regular h
          → so_dummy c ≤ so_dummy (bucket_index h (2 ^ j)))
so_dummy-IsLast j h le lt =
    let small = bucket-lt j h le in
    let even = so_dummy-even (h % 2 ^ j) small in
    let odd = so_regular-odd h lt in
    let at = small_dummy (h % 2 ^ j) small in
    let low = ap (reverse_bits 32) (set_high-low j h le) in
    let (before, room) = reverse_bits-window 32 j (set_high h) (omega arith) in
    let key = regular_bits h in
    (
      omega arith,
      λ c c_lt c_before.
          let all : 2 ^ j ≤ 2 ^ 16 = pow-le-pow_right (omega arith) le in
          let at_c = small_dummy c (omega arith) in
          let last = last_before 32 j (set_high h) c (omega arith) c_lt (omega arith) in
          omega arith,
    )

len_bits-zero : (w : ℕ) → len_bits w 0 ≡ 0
unfolding len_bits
len_bits-zero zero = refl
len_bits-zero (suc w) = refl

-- The highest bit that is set.
highest_bit :
    (w x : ℕ) → 0 < x → x < 2 ^ w → (j : ℕ) × (len_bits w x ≡ suc j) × (2 ^ j ≤ x) × (x < 2 ^ suc j)
unfolding len_bits
highest_bit zero x pos lt = absurd (omega arith)
highest_bit (suc w) x pos lt = elim (dec_lt 1 x) [
  | yes more ↦
      let (j, len, lo, hi) = highest_bit w (x / 2) (omega arith) (omega (arith, pow-suc 2 w)) in
      (suc j, ground arith, omega (arith, pow-suc 2 j), omega (arith, pow-suc 2 (suc j)))
  | no one ↦
      let at : x ≡ 1 = omega arith in
      let none = len_bits-zero w in
      (0, rw at (ap (λ (l : ℕ). l + 1) none), omega arith, omega arith)
]

one_bit_less : (j b : ℕ) → 2 ^ j ≤ b → b < 2 ^ suc j → b - 2 ^ j ≡ b % 2 ^ j
one_bit_less j b lo hi = sym (mod-eq-sub-mod lo ∙ mod-eq_of_lt (omega (arith, pow-suc 2 j)))

-- Let `b` be a bucket below 2 ^ 16 other than bucket 0. Its parent has a lower number: the remainder of
-- `b` by 2 ^ j, where bit `j` is the highest of `b`. The parent's sentinel stands before that of `b`.
pub parent_bucket-before :
    (b : ℕ)
    → 0 < b
    → b < 2 ^ 16
    → (p : ℕ) × (j : ℕ) × (parent_bucket b ≡ some p)
      × (p < b)
      × (2 ^ j ≤ b)
      × (b < 2 ^ suc j)
      × (p ≡ bucket_index b (2 ^ j))
      × (so_dummy p < so_dummy b)
unfolding parent_bucket
parent_bucket-before b pos lt =
    let (j, len, lo, hi) = highest_bit 64 b pos (omega arith) in
    let rest = one_bit_less j b lo hi in
    let positive = pow_pos j in
    let p_lt : b - 2 ^ j < b = omega arith in
    let small = small_dummy (b - 2 ^ j) (omega arith) in
    let at_b = small_dummy b lt in
    let j_lt : j < 32 = elim (dec_lt j 32) [
      | yes ok ↦ ok
      | no big ↦
          let far : 2 ^ 32 ≤ 2 ^ j =
            let le : 32 ≤ j = omega arith in pow-le-pow_right (omega arith) le in
          absurd (omega arith)
    ] in
    let clear = reverse_bits-clear 32 j b j_lt lo hi in
    let same = ap (reverse_bits 32) rest in
    let length : len_bits 64 b - 1 ≡ j = omega arith in
    let nonzero : (b == 0) ≡ false = ground arith in
    (b - 2 ^ j, j, rw (nonzero, length) refl, p_lt, lo, hi, rest, omega arith)
