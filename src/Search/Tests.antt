-- ===== src/Search/Tests.antt =====
-- search.go: runs of BinarySearch, and its theorem at an input.
use lockfree.Base.{ℕ, ◌≡◌, refl, List, [], ◌∷◌, some, ltb, pos, negsuc, arith}
use lockfree.Base.Less.{ltb-IsStrictOrder}
use lockfree.Search.{binary_search}
use lockfree.Search.Correct.{IsAnswer, binary_search-IsAnswer}

abbrev primes : List ℕ
primes = 2 ∷ 3 ∷ 5 ∷ 7 ∷ 11 ∷ []

binary_search_runs :
    (binary_search primes 7 ltb ≡ some (pos 3))
    × (binary_search primes 1 ltb ≡ some (negsuc 0))
    × (binary_search primes 6 ltb ≡ some (negsuc 0))
    × (binary_search [] 6 ltb ≡ some (negsuc 0))
unfolding binary_search
binary_search_runs = (refl, refl, refl, refl)

binary_search-IsAnswer_example : IsAnswer ltb primes 6 (binary_search primes 6 ltb)
binary_search-IsAnswer_example =
    binary_search-IsAnswer ltb ltb-IsStrictOrder primes 6 (ground arith)
