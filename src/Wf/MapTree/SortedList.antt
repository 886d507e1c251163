-- ===== src/Wf/MapTree/SortedList.antt =====
-- interfaces.go, `Map`: what an ordered map promises, over the list of its entries in key order.
use lockfree.Base.{◌≡◌, true, Option, none, some, List, [], ◌∷◌, if◌then◌else◌, All}
use lockfree.Base.Less.{Less}

module _ {ℓ κ} {K : Type ℓ} {V : Type κ} (less : Less K) where
  -- The entry of the first key equivalent to `key`.
  unfoldable pub lookup : List (K × V) → K → Option V
  lookup [] key = none
  lookup ((k, v) ∷ xs) key =
      if less key k then lookup xs key else if less k key then lookup xs key else some v

  -- A key that is there keeps its place and its spelling, and gets the new value.
  unfoldable pub insert : List (K × V) → K → V → List (K × V)
  insert [] key val = (key, val) ∷ []
  insert ((k, v) ∷ xs) key val =
      if less key k
      then (key, val) ∷ (k, v) ∷ xs
      else if less k key
      then (k, v) ∷ insert xs key val
      else (k, val) ∷ xs

  unfoldable pub delete : List (K × V) → K → List (K × V)
  delete [] key = []
  delete ((k, v) ∷ xs) key =
      if less key k
      then (k, v) ∷ delete xs key
      else if less k key
      then (k, v) ∷ delete xs key
      else xs

  -- Keys increase strictly.
  abbrev pub IsOrdered : List (K × V) → Type 0
  IsOrdered [] = Unit
  IsOrdered (x ∷ xs) = All (λ (y : K × V). less x.0 y.0 ≡ true) xs × IsOrdered xs
