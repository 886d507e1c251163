-- ===== src/Wf/RingBuffer/Capacity.antt =====
-- wf/ringbuffer.go, `nextPowerOfTwo` and `NewRingBuffer`.
use native.Mathlib.Decide.{dec_lt}
use native.Mathlib.Nat.{pow-suc, pow-le-pow_right}
use lockfree.Base.{
  ℕ, zero, suc, ◌+◌, ◌-◌, ◌*◌, ◌%◌, ◌^◌, ◌≤◌, ◌<◌, ◌≡◌, refl, ◌⊎◌, inl, inr, Bool, true, false,
  ◌||◌, Option, none, some, ltb, leb, if◌then◌else◌, replicate, arith, ℤ, pos, negsuc, lt→ltb,
}
use lockfree.Wf.RingBuffer.{RingBuffer}

-- `p < n` for a positive int `n`, with `p` a 64-bit pattern: from 2 ^ 63 on it is negative.
abbrev pub below : ℕ → ℕ → Bool
below p n = leb (2 ^ 63) p || ltb p n

-- `for p < n { p <<= 1 }` on fuel; `none` is no fuel.
unfoldable pub double_while : ℕ → ℕ → ℕ → Option ℕ
double_while zero p n = none
double_while (suc fuel) p n =
    let rest = double_while fuel (p * 2 % 2 ^ 64) n in if below p n then rest else some p

-- A positive int is `pos n`. Every `n` up to 2 ^ 62 is reached in 62 rounds.
unfoldable pub next_power_of_two : ℕ → ℤ → Option ℕ
unfolding double_while
next_power_of_two fuel (negsuc k) = some 1
next_power_of_two fuel (pos n) = if ltb n 1 then some 1 else double_while fuel 1 n

-- The struct that `NewRingBuffer` builds around `c` slots.
abbrev pub ring_of {ℓ} : {A : Type ℓ} → A → ℕ → RingBuffer A
ring_of blank c = record { buf = replicate c blank; mask = c - 1; head = 0; tail = 0 }

unfoldable pub new_ring_buffer {ℓ} : {A : Type ℓ} → A → ℕ → ℤ → Option (RingBuffer A)
unfolding next_power_of_two
new_ring_buffer blank fuel capacity = elim (next_power_of_two fuel capacity) [
  | none ↦ none
  | some c ↦ some (ring_of blank c)
]

-- `2 ^ k` is the least power of two that is not less than `n`.
pub record IsLeastPower (n k : ℕ) : Type 0 where
  pub enough : n ≤ 2 ^ k
  pub least : (j : ℕ) → n ≤ 2 ^ j → k ≤ j

pow-le : (j i : ℕ) → j ≤ i → 2 ^ j ≤ 2 ^ i
pow-le j i h = pow-le-pow_right (omega arith) h

below-or_ge : (p n : ℕ) → p < 2 ^ 63 → (below p n ≡ true) × (p < n) ⊎ (below p n ≡ false) × (n ≤ p)
below-or_ge p n small = ground arith

double_while-LeastPower :
    (fuel j n : ℕ)
    → n ≤ 2 ^ 62
    → j ≤ 62
    → 62 < fuel + j
    → ((i : ℕ) → n ≤ 2 ^ i → j ≤ i)
    → (k : ℕ) × (double_while fuel (2 ^ j) n ≡ some (2 ^ k)) × (k ≤ 62) × IsLeastPower n k
unfolding double_while
double_while-LeastPower zero j n small jn enough least = absurd (omega arith)
double_while-LeastPower (suc fuel) j n small jn enough least =
    let bound : 2 ^ j ≤ 2 ^ 62 = pow-le j 62 jn in
    elim (below-or_ge (2 ^ j) n (omega arith)) [
      | inl (again, lt) ↦
          let next : 2 ^ j * 2 % 2 ^ 64 ≡ 2 ^ suc j = omega (arith, pow-suc 2 j) in
          let more : j < 62 = elim (dec_lt j 62) [
            | yes h ↦ h
            | no h ↦ absurd (omega (arith, pow-le 62 j))
          ] in
          rw (again, next)
            (double_while-LeastPower fuel (suc j) n small more (omega arith) (λ i h.
              elim (dec_lt j i) [ yes up ↦ up | no up ↦ absurd (omega (arith, pow-le i j)) ]))
      | inr (done, ge) ↦ (j, rw done, jn, record { enough = ge; least = least })
    ]

-- For a capacity from 0 to 2 ^ 62, on 63 units of fuel for its loop `NewRingBuffer` returns an empty
-- buffer with its cursors at 0. It has as many slots as the least power of two that is not less than
-- the capacity; the mask is one less.
pub new_ring_buffer-IsLeastPower {ℓ} :
    {A : Type ℓ} (blank : A) (n : ℕ)
    → n ≤ 2 ^ 62
    → (k : ℕ) × (rb : RingBuffer A) × (new_ring_buffer blank 63 (pos n) ≡ some rb)
      × (rb ≡ ring_of blank (2 ^ k))
      × (k ≤ 62)
      × IsLeastPower n k
unfolding new_ring_buffer
new_ring_buffer-IsLeastPower blank n small = elim (dec_lt n 1) [
  | yes none_asked ↦ (
    0,
    _,
    rw (lt→ltb n 1 none_asked, new_ring_buffer),
    refl,
    omega arith,
    record { enough = omega arith; least = λ j h. omega arith },
  )
  | no some_asked ↦
      let (k, done, kn, p) =
        double_while-LeastPower 63 0 n small (omega arith) (omega arith) (λ i h. omega arith) in
      let positive : ltb n 1 ≡ false = ground arith in
      (k, _, rw (positive, done, new_ring_buffer), refl, kn, p)
]

double_while-zero : (fuel n : ℕ) → 0 < n → double_while fuel 0 n ≡ none
unfolding double_while
double_while-zero zero n h = refl
double_while-zero (suc fuel) n h =
    let again : below 0 n ≡ true = ground arith in rw again (double_while-zero fuel n h)

double_while-none : (fuel j n : ℕ) → 2 ^ 62 < n → j ≤ 63 → double_while fuel (2 ^ j) n ≡ none
unfolding double_while
double_while-none zero j n big jn = refl
double_while-none (suc fuel) j n big jn = elim (dec_lt j 63) [
  | yes more ↦
      let bound : 2 ^ j ≤ 2 ^ 62 = pow-le j 62 (omega arith) in
      let again : below (2 ^ j) n ≡ true = ground arith in
      let next : 2 ^ j * 2 % 2 ^ 64 ≡ 2 ^ suc j = omega (arith, pow-suc 2 j) in
      rw (again, next) (double_while-none fuel (suc j) n big more)
  | no last ↦ let e : j ≡ 63 = omega arith in rw e (double_while-zero fuel n (omega arith))
]

-- For a capacity above 2 ^ 62 the loop of `nextPowerOfTwo` never ends: `p` becomes negative, then 0.
pub new_ring_buffer-none {ℓ} :
    {A : Type ℓ} (blank : A) (fuel n : ℕ) → 2 ^ 62 < n → new_ring_buffer blank fuel (pos n) ≡ none
unfolding new_ring_buffer
new_ring_buffer-none blank fuel n big =
    let positive : ltb n 1 ≡ false = ground arith in
    rw (positive, double_while-none fuel 0 n big (omega arith), new_ring_buffer)
