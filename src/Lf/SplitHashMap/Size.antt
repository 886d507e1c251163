-- ===== src/Lf/SplitHashMap/Size.antt =====
-- lf/splithashmap.go: the number of buckets.
use native.Mathlib.Nat.{pow-suc}
use native.Mathlib.Decide.{dec_lt}
use lockfree.Base.{
  ℕ, suc, ◌*◌, ◌^◌, ◌≤◌, ◌<◌, ◌≡◌, inl, inr, ap, Bool-cases, List, [], ◌∷◌, ltb, ◌==◌, ==_iff, ◌&&◌,
  arith,
}
use lockfree.Lf.SplitHashMap.{grow}

-- A power of two, of at least 2 and at most 2 ^ 16 (`soMaxBuckets`).
abbrev pub IsSize : ℕ → Type 0
IsSize size = (j : ℕ) × (1 ≤ j) × (j ≤ 16) × (size ≡ 2 ^ j)

-- What a list of calls of `Set` makes of the size; each has counted some elements and loaded some size.
abbrev pub sizes : List (ℕ × ℕ) → ℕ → ℕ
sizes [] size = size
sizes ((c, csize) ∷ more) size = sizes more (grow c csize size)

below_exponent : (j : ℕ) → j ≤ 16 → 2 ^ j < 2 ^ 16 → j < 16
below_exponent j le lt = elim (dec_lt j 16) [
  | yes ok ↦ ok
  | no big ↦
      let at : j ≡ 16 = omega arith in let same = ap (λ (e : ℕ). 2 ^ e) at in absurd (omega arith)
]

pub grow-IsSize : (c csize size : ℕ) → IsSize size → IsSize (grow c csize size)
unfolding grow
grow-IsSize c csize size (j, lo, hi, at) =
    elim (Bool-cases (ltb (csize * 4) c && ltb csize (2 ^ 16))) [
      | inl full ↦ elim (Bool-cases (size == csize)) [
        | inl same ↦
            let eq = (==_iff size csize).0 same in
            let small : csize < 2 ^ 16 = ground arith in
            let further = below_exponent j hi (omega arith) in
            rw (full, same) (suc j, omega arith, omega arith, omega (arith, pow-suc 2 j))
        | inr other ↦ rw (full, other) (j, lo, hi, at)
      ]
      | inr room ↦ rw room (j, lo, hi, at)
    ]

-- Whatever the calls of `Set` have counted and loaded, and in whatever order their compare-and-swaps
-- are, the number of buckets of a table that has a power of two of them, from 2 to 2 ^ 16, stays one.
pub sizes-IsSize : (sets : List (ℕ × ℕ)) (size : ℕ) → IsSize size → IsSize (sizes sets size)
sizes-IsSize [] size ok = ok
sizes-IsSize ((c, csize) ∷ more) size ok =
    sizes-IsSize more (grow c csize size) (grow-IsSize c csize size ok)
