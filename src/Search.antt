-- ===== src/Search.antt =====
-- search.go: BinarySearch.
mod Correct
mod Tests
use lockfree.Base.{
  ℕ, zero, suc, ◌+◌, ◌-◌, ◌/◌, Option, none, some, List, ltb, ℤ, pos, negsuc, length, get_elem?,
  if◌then◌else◌,
}
use lockfree.Base.Less.{Less}

module _ {ℓ} {A : Type ℓ} (arr : List A) (x : A) (less : Less A) where
  -- The loop, on fuel. `r` may be -1 in the source, so `hi` stands for `r + 1`: the test `l <= r` is
  -- `l < hi`, `(l + r) / 2` is `(l + hi - 1) / 2` (`hi` is positive there), `r = mid - 1` is
  -- `hi = mid`. `none` is an index out of range, or no fuel.
  binary_search_loop : ℕ → ℕ → ℕ → Option ℤ
  binary_search_loop zero l hi = none
  binary_search_loop (suc fuel) l hi =
      let mid = (l + hi - 1) / 2 in
      let right = binary_search_loop fuel (mid + 1) hi in
      let left = binary_search_loop fuel l mid in
      if ltb l hi
      then elim (get_elem? arr mid) [
        | none ↦ none
        | some a ↦ if less a x then right else if less x a then left else some (pos mid)
      ]
      else some (negsuc 0)

  -- `r` starts at `len(arr) - 1`; a round at least takes `mid` out of the range.
  unfoldable pub binary_search : Option ℤ
  unfolding binary_search_loop
  binary_search = binary_search_loop (length arr + 1) 0 (length arr)
