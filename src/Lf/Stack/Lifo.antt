-- ===== src/Lf/Stack/Lifo.antt =====
-- lf/stack.go: what a stack promises, as the accesses at which its calls take effect.
use lockfree.Base.{◌≡◌, List, [], ◌∷◌}

-- `tau` is any other access.
pub data Event {ℓ} (A : Type ℓ) : Type ℓ where
  tau : Event A
  pushed : A → Event A
  took : A → Event A
  found_empty : Event A

-- The events that a stack allows, top first.
pub data LifoStep {ℓ} {A : Type ℓ} : List A → Event A → List A → Type ℓ where
  inside : {q r : List A} → q ≡ r → LifoStep q tau r
  add : {q r : List A} (x : A) → r ≡ x ∷ q → LifoStep q (pushed x) r
  take : {q r : List A} (x : A) → q ≡ x ∷ r → LifoStep q (took x) r
  nothing : {q r : List A} → q ≡ [] → q ≡ r → LifoStep q found_empty r
