-- ===== src/Wf/MapTree/Splits.antt =====
-- The ordered list of a search tree's entries, split at the root's.
use lockfree.Base.{
  ◌≡◌, refl, ◌∙◌, true, false, none, some, List, [], ◌∷◌, ◌++◌, arith, All, All-imp,
  All-append_left, All-append_right,
}
use lockfree.Base.Less.{Less, IsStrictOrder, lt-lt_of_le, lt_trans}
use lockfree.Wf.MapTree.SortedList.{lookup, insert, delete, IsOrdered}

module _ {ℓ κ} {K : Type ℓ} {V : Type κ} (less : Less K) where
  -- Every key is before `key`, every key is behind it.
  abbrev pub AllBefore : K → List (K × V) → Type 0
  AllBefore key = All (λ (x : K × V). less x.0 key ≡ true)

  abbrev pub AllBehind : K → List (K × V) → Type 0
  AllBehind key = All (λ (x : K × V). less key x.0 ≡ true)

  pub record Split (xs : List (K × V)) (k : K) (ys : List (K × V)) : Type 0 where
    pub left : IsOrdered less xs
    pub right : IsOrdered less ys
    pub before : AllBefore k xs
    pub behind : AllBehind k ys

  pub IsOrdered-Split :
      (xs : List (K × V)) (k : K) (v : V) (ys : List (K × V))
      → IsOrdered less (xs ++ ((k, v) ∷ ys))
      → Split xs k ys
  IsOrdered-Split [] k v ys o = record { left = tt; right = o.1; before = tt; behind = o.0 }
  IsOrdered-Split (x ∷ xs) k v ys o =
      let s = IsOrdered-Split xs k v ys o.1 in
      let P = λ (y : K × V). less x.0 y.0 ≡ true in
      record {
        left = (All-append_left P xs ((k, v) ∷ ys) o.0, s.left);
        right = s.right;
        before = ((All-append_right P xs ((k, v) ∷ ys) o.0).0, s.before);
        behind = s.behind;
      }

  -- Past keys that are before `key` the operations go on.
  insert-past :
      (order : IsStrictOrder less) (xs ys : List (K × V)) (key : K) (val : V)
      → AllBefore key xs
      → insert less (xs ++ ys) key val ≡ xs ++ insert less ys key val
  unfolding insert
  insert-past order [] ys key val b = refl
  insert-past order ((k, v) ∷ xs) ys key val b =
      rw (order.asym k key b.0, b.0, insert) (rw (insert-past order xs ys key val b.1))

  lookup-past :
      (order : IsStrictOrder less) (xs ys : List (K × V)) (key : K)
      → AllBefore key xs
      → lookup less (xs ++ ys) key ≡ lookup less ys key
  unfolding lookup
  lookup-past order [] ys key b = refl
  lookup-past order ((k, v) ∷ xs) ys key b =
      rw (order.asym k key b.0, b.0) (lookup-past order xs ys key b.1)

  delete-past :
      (order : IsStrictOrder less) (xs ys : List (K × V)) (key : K)
      → AllBefore key xs
      → delete less (xs ++ ys) key ≡ xs ++ delete less ys key
  unfolding delete
  delete-past order [] ys key b = refl
  delete-past order ((k, v) ∷ xs) ys key b =
      rw (order.asym k key b.0, b.0) (rw (delete-past order xs ys key b.1))

  -- Where every key is behind `key` there is nothing to find.
  pub lookup-AllBehind :
      (xs : List (K × V)) (key : K) → AllBehind key xs → lookup less xs key ≡ none
  unfolding lookup
  lookup-AllBehind [] key b = refl
  lookup-AllBehind ((k, v) ∷ xs) key b = rw b.0 (lookup-AllBehind xs key b.1)

  delete-AllBehind : (xs : List (K × V)) (key : K) → AllBehind key xs → delete less xs key ≡ xs
  unfolding delete
  delete-AllBehind [] key b = refl
  delete-AllBehind ((k, v) ∷ xs) key b = rw b.0 (rw (delete-AllBehind xs key b.1))

  lookup-before :
      (xs zs : List (K × V)) (key : K)
      → AllBehind key zs
      → lookup less (xs ++ zs) key ≡ lookup less xs key
  unfolding lookup
  lookup-before [] zs key b = lookup-AllBehind zs key b
  lookup-before ((k, v) ∷ xs) zs key b = rw (lookup-before xs zs key b) refl

  delete-before :
      (xs zs : List (K × V)) (key : K)
      → AllBehind key zs
      → delete less (xs ++ zs) key ≡ delete less xs key ++ zs
  unfolding delete
  delete-before [] zs key b = delete-AllBehind zs key b
  delete-before ((k, v) ∷ xs) zs key b = ground (arith, delete-before xs zs key b)

  -- A key before the root's is looked for on its left.
  pub insert-left :
      (xs : List (K × V)) (k : K) (v : V) (ys : List (K × V)) (key : K) (val : V)
      → less key k ≡ true
      → insert less (xs ++ ((k, v) ∷ ys)) key val ≡ insert less xs key val ++ ((k, v) ∷ ys)
  unfolding insert
  insert-left [] k v ys key val h = rw h
  insert-left ((j, w) ∷ xs) k v ys key val h = ground (arith, insert-left xs k v ys key val h)

module _ {ℓ κ} {K : Type ℓ} {V : Type κ} {less : Less K} (order : IsStrictOrder less)
    (xs : List (K × V)) (k : K) (v : V) (ys : List (K × V)) (s : Split less xs k ys) where
  behind_root : (key : K) → less key k ≡ true → AllBehind less key ((k, v) ∷ ys)
  behind_root key h = (h, All-imp ys (λ y b. lt_trans order key k y.0 h b) s.behind)

  before_root : (key : K) → less key k ≡ false → AllBefore less key xs
  before_root key h = All-imp xs (λ x b. lt-lt_of_le order x.0 k key b h) s.before

  pub lookup-left :
      (key : K) → less key k ≡ true → lookup less (xs ++ ((k, v) ∷ ys)) key ≡ lookup less xs key
  lookup-left key h = lookup-before less xs ((k, v) ∷ ys) key (behind_root key h)

  pub delete-left :
      (key : K)
      → less key k ≡ true
      → delete less (xs ++ ((k, v) ∷ ys)) key ≡ delete less xs key ++ ((k, v) ∷ ys)
  delete-left key h = delete-before less xs ((k, v) ∷ ys) key (behind_root key h)

  -- A key behind the root's is looked for on its right.
  pub lookup-right :
      (key : K)
      → less key k ≡ false
      → less k key ≡ true
      → lookup less (xs ++ ((k, v) ∷ ys)) key ≡ lookup less ys key
  unfolding lookup
  lookup-right key h g =
      lookup-past less order xs ((k, v) ∷ ys) key (before_root key h) ∙ rw (h, g) refl

  pub insert-right :
      (key : K) (val : V)
      → less key k ≡ false
      → less k key ≡ true
      → insert less (xs ++ ((k, v) ∷ ys)) key val ≡ xs ++ ((k, v) ∷ insert less ys key val)
  unfolding insert
  insert-right key val h g =
      insert-past less order xs ((k, v) ∷ ys) key val (before_root key h) ∙ rw (h, g) refl

  pub delete-right :
      (key : K)
      → less key k ≡ false
      → less k key ≡ true
      → delete less (xs ++ ((k, v) ∷ ys)) key ≡ xs ++ ((k, v) ∷ delete less ys key)
  unfolding delete
  delete-right key h g =
      delete-past less order xs ((k, v) ∷ ys) key (before_root key h) ∙ rw (h, g) refl

  -- A key equivalent to the root's is found there.
  pub lookup_here :
      (key : K)
      → less key k ≡ false
      → less k key ≡ false
      → lookup less (xs ++ ((k, v) ∷ ys)) key ≡ some v
  unfolding lookup
  lookup_here key h g =
      lookup-past less order xs ((k, v) ∷ ys) key (before_root key h) ∙ rw (h, g) refl

  pub insert_here :
      (key : K) (val : V)
      → less key k ≡ false
      → less k key ≡ false
      → insert less (xs ++ ((k, v) ∷ ys)) key val ≡ xs ++ ((k, val) ∷ ys)
  unfolding insert
  insert_here key val h g =
      insert-past less order xs ((k, v) ∷ ys) key val (before_root key h) ∙ rw (h, g) refl

  pub delete_here :
      (key : K)
      → less key k ≡ false
      → less k key ≡ false
      → delete less (xs ++ ((k, v) ∷ ys)) key ≡ xs ++ ys
  unfolding delete
  delete_here key h g =
      delete-past less order xs ((k, v) ∷ ys) key (before_root key h) ∙ rw (h, g) refl
