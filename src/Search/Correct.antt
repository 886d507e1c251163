-- ===== src/Search/Correct.antt =====
-- search.go: the loop stays inside the array, ends, and finds what is there.
use native.Mathlib.Decide.{dec_lt}
use lockfree.Base.{
  All, All-at, [], ◌∷◌, ℕ, zero, suc, ◌+◌, ◌-◌, ◌/◌, ◌≤◌, ◌<◌, ◌≡◌, inl, inr, true, false, Option,
  some, List, ltb, ℤ, pos, negsuc, length, get_elem?, get_elem?-some, get_elem?-none, arith,
  Bool-cases, ltb→lt, if◌then◌else◌,
}
use lockfree.Base.Less.{Less, IsStrictOrder}
use lockfree.Search.{binary_search_loop, binary_search}

module _ {ℓ} {A : Type ℓ} (less : Less A) where
  -- No element is less than an earlier one.
  abbrev pub IsSorted : List A → Type 0
  IsSorted [] = Unit
  IsSorted (a ∷ arr) = All (λ b. less b a ≡ false) arr × IsSorted arr

  IsSorted-at :
      (arr : List A)
      → IsSorted arr
      → (i j : ℕ) (a b : A) → i < j
      → get_elem? arr i ≡ some a
      → get_elem? arr j ≡ some b
      → less b a ≡ false
  IsSorted-at [] s i j a b lt ei ej = cc
  IsSorted-at (c ∷ arr) s i zero a b lt ei ej = absurd (omega arith)
  IsSorted-at (c ∷ arr) s zero (suc j) a b lt ei ej =
      let e : c ≡ a = cc in rw (← e) (All-at (λ d. less d c ≡ false) arr s.0 j b ej)
  IsSorted-at (c ∷ arr) s (suc i) (suc j) a b lt ei ej =
      IsSorted-at arr s.1 i j a b (omega arith) ei ej

  -- Neither is less than the other.
  abbrev pub IsEquiv : A → A → Type 0
  IsEquiv a b = (less a b ≡ false) × (less b a ≡ false)

  -- The answer is an index of an element equivalent to `x`, or -1 and there is none. A panic is no
  -- answer.
  pub data IsAnswer (arr : List A) (x : A) : Option ℤ → Type ℓ where
    found : {i : ℕ} (a : A) → get_elem? arr i ≡ some a → IsEquiv a x → IsAnswer arr x (some (pos i))
    absent :
        ((i : ℕ) (a : A) → get_elem? arr i ≡ some a → ¬ IsEquiv a x)
        → IsAnswer arr x (some (negsuc 0))

module _ {ℓ} {A : Type ℓ} (less : Less A) (order : IsStrictOrder less) (arr : List A) (x : A)
    (sorted : IsSorted less arr) where
  open order use {cotrans}

  sorted_at :
      (i j : ℕ) (a b : A)
      → i < j
      → get_elem? arr i ≡ some a
      → get_elem? arr j ≡ some b
      → less b a ≡ false
  sorted_at = IsSorted-at less arr sorted

  -- Everything before `l` is less than `x`, and `x` is less than everything from `hi` on.
  record Bounds (l hi : ℕ) : Type ℓ where
    ordered : l ≤ hi
    inside : hi ≤ length arr
    before : (i : ℕ) (a : A) → i < l → get_elem? arr i ≡ some a → less a x ≡ true
    after : (i : ℕ) (a : A) → hi ≤ i → get_elem? arr i ≡ some a → less x a ≡ true

  right_Bounds :
      (l hi mid : ℕ) (a : A)
      → Bounds l hi
      → mid < hi
      → get_elem? arr mid ≡ some a
      → less a x ≡ true
      → Bounds (mid + 1) hi
  right_Bounds l hi mid a b lt at h = record {
    ordered = omega arith;
    inside = b.inside;
    before = λ i c below e. elim (dec_lt i mid) [
      | yes p ↦ ground (arith, sorted_at i mid c a p e at, cotrans a c x)
      | no p ↦ ground arith
    ];
    after = b.after;
  }

  left_Bounds :
      (l hi mid : ℕ) (a : A)
      → Bounds l hi
      → l ≤ mid
      → mid < hi
      → get_elem? arr mid ≡ some a
      → less x a ≡ true
      → Bounds l mid
  left_Bounds l hi mid a b le lt at h = record {
    ordered = le;
    inside = let inside = b.inside in omega arith;
    before = b.before;
    after = λ i c above e. elim (dec_lt mid i) [
      | yes p ↦ ground (arith, sorted_at mid i a c p at e, cotrans x c a)
      | no p ↦ ground arith
    ];
  }

  -- A round in the range: the element at `mid` is there, and each branch keeps the bounds.
  round :
      (l hi : ℕ)
      → l < hi
      → Bounds l hi
      → (rest : ℕ → ℕ → Option ℤ)
      → ((l' hi' : ℕ) → hi' + l < hi + l' → Bounds l' hi' → IsAnswer less arr x (rest l' hi'))
      → let mid = (l + hi - 1) / 2 in
        (a : A)
        → get_elem? arr mid ≡ some a
        → IsAnswer less arr x (
            if less a x then rest (mid + 1) hi else if less x a then rest l mid else some (pos mid))
  round l hi lt b rest ih a at = elim (Bool-cases (less a x)) [
    | inl low ↦ rw low (ih _ _ (omega arith) (right_Bounds l hi _ a b (omega arith) at low))
    | inr no_low ↦ elim (Bool-cases (less x a)) [
      | inl high ↦
          rw (no_low, high)
            (ih _ _ (omega arith) (left_Bounds l hi _ a b (omega arith) (omega arith) at high))
      | inr no_high ↦ rw (no_low, no_high) (found a at (no_low, no_high))
    ]
  ]

  binary_search_loop-IsAnswer :
      (fuel l hi : ℕ)
      → hi < l + fuel
      → Bounds l hi
      → IsAnswer less arr x (binary_search_loop arr x less fuel l hi)
  unfolding binary_search_loop
  binary_search_loop-IsAnswer zero l hi enough b = absurd (omega arith)
  binary_search_loop-IsAnswer (suc fuel) l hi enough b = elim (Bool-cases (ltb l hi)) [
    | inl lt ↦
        let below : l < hi = ltb→lt l hi lt in
        let inside : (l + hi - 1) / 2 < length arr = omega arith in
        let (a, at) = get_elem?-some arr ((l + hi - 1) / 2) inside in
        rw (lt, at)
          (round l hi below b (binary_search_loop arr x less fuel)
            (λ l' hi' h b'. binary_search_loop-IsAnswer fuel l' hi' (omega arith) b') a at)
    | inr ge ↦ rw ge (
        absent (λ i a e eq. elim (dec_lt i l) [
          | yes p ↦ cc (b.before i a p e)
          | no p ↦ cc (b.after i a (ground arith) e)
        ]))
  ]

  -- On a sorted array, with a comparison that is a strict weak order, `BinarySearch` returns (it
  -- never indexes out of range and its loop ends): the index of an element equivalent to `x`, or -1
  -- if the array has none.
  pub binary_search-IsAnswer : IsAnswer less arr x (binary_search arr x less)
  unfolding binary_search
  binary_search-IsAnswer =
      binary_search_loop-IsAnswer (length arr + 1) 0 (length arr) (omega arith) (record {
        ordered = omega arith;
        inside = omega arith;
        before = λ i a h e. absurd (omega arith);
        after = λ i a h e. absurd (get_elem?-none arr i a h e);
      })
