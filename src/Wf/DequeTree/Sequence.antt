-- ===== src/Wf/DequeTree/Sequence.antt =====
-- interfaces.go, `Deque`: what a double-ended queue promises, over the list of its elements.
use lockfree.Base.{◌≡◌, refl, Option, none, some, List, [], ◌∷◌, ◌++◌}

module _ {ℓ} {A : Type ℓ} where
  abbrev pub push_front : List A → A → List A
  push_front xs x = x ∷ xs

  abbrev pub push_back : List A → A → List A
  push_back xs x = xs ++ (x ∷ [])

  -- A pop returns the rest and the element, if there was one.
  abbrev pub pop_front : List A → List A × Option A
  pop_front [] = ([], none)
  pop_front (x ∷ xs) = (xs, some x)

  abbrev pub pop_back : List A → List A × Option A
  pop_back [] = ([], none)
  pop_back (x ∷ []) = ([], some x)
  pop_back (x ∷ y ∷ xs) = let (rest, last) = pop_back (y ∷ xs) in (x ∷ rest, last)

  -- A pop at the back takes what was pushed there last.
  pub pop_back-push_back : (xs : List A) (v : A) → pop_back (push_back xs v) ≡ (xs, some v)
  pop_back-push_back [] v = refl
  pop_back-push_back (x ∷ []) v = refl
  pop_back-push_back (x ∷ y ∷ xs) v = rw (pop_back-push_back (y ∷ xs) v)

  -- Only the end that is popped matters.
  pub pop_back-append :
      (xs : List A) (y : A) (ys : List A)
      → pop_back (xs ++ (y ∷ ys)) ≡ (xs ++ (pop_back (y ∷ ys)).0, (pop_back (y ∷ ys)).1)
  pop_back-append [] y ys = refl
  pop_back-append (x ∷ []) y ys = refl
  pop_back-append (x ∷ z ∷ xs) y ys = rw (pop_back-append (z ∷ xs) y ys)

  -- A pop takes from a sequence that is not empty, and not from what is joined to it.
  pub pop_front-middle :
      (xs : List A) (v : A) (ys zs : List A)
      → pop_front ((xs ++ (v ∷ ys)) ++ zs)
        ≡ ((pop_front (xs ++ (v ∷ ys))).0 ++ zs, (pop_front (xs ++ (v ∷ ys))).1)
  pop_front-middle [] v ys zs = refl
  pop_front-middle (x ∷ xs) v ys zs = refl

  pop_back-cons :
      (v : A) (xs : List A) (w : A) (ys : List A)
      → pop_back (v ∷ (xs ++ (w ∷ ys)))
        ≡ (v ∷ (pop_back (xs ++ (w ∷ ys))).0, (pop_back (xs ++ (w ∷ ys))).1)
  pop_back-cons v [] w ys = refl
  pop_back-cons v (x ∷ xs) w ys = refl

  pub pop_back-middle :
      (zs : List A) (v : A) (xs : List A) (w : A) (ys : List A)
      → pop_back (zs ++ (v ∷ (xs ++ (w ∷ ys))))
        ≡ (zs ++ (v ∷ (pop_back (xs ++ (w ∷ ys))).0), (pop_back (xs ++ (w ∷ ys))).1)
  pop_back-middle zs v xs w ys =
      rw (pop_back-append zs v (xs ++ (w ∷ ys)), pop_back-cons v xs w ys) refl
