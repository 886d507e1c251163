-- ===== src/Wf/MapTree/Refine.antt =====
-- wf/map.go: on a balanced search tree each operation returns, does to the in-order list of entries
-- what an ordered map does to its entries, and leaves the tree balanced.
use native.Mathlib.Nat.{max_comm}
use lockfree.Base.{
  ℕ, ◌+◌, ◌≡◌, refl, sym, ap, ◌∙◌, inl, inr, some, List, ◌∷◌, ◌++◌, arith, Bool-cases, append-nil,
}
use lockfree.Base.Less.{Less, IsStrictOrder, lt_irrefl}
use lockfree.Wf.Avl.{leaf, node, height, mk}
use lockfree.Wf.Avl.Balance.{inorder, IsAvl, rebalance-Rebalanced}
use lockfree.Wf.Avl.Change.{
  Grown, Shrunk, Rebalanced-Grown, Rebalanced-Shrunk, unchanged, single-Grown, mk-Grown,
}
use lockfree.Wf.MapTree.{MapTree, map_min, map_insert, map_lookup, map_delete, delete_root}
use lockfree.Wf.MapTree.SortedList.{lookup, insert, delete, IsOrdered}
use lockfree.Wf.MapTree.Splits.{
  IsOrdered-Split, insert-left, insert-right, insert_here, lookup-left, lookup-right, lookup_here,
  delete-left, delete-right, delete_here,
}

module _ {ℓ κ} {K : Type ℓ} {V : Type κ} {less : Less K} (order : IsStrictOrder less) where
  -- For a strict order `mapLookup` finds what the first entry of an equivalent key holds, if the keys of the tree
  -- increase from left to right.
  pub map_lookup-eq-lookup :
      (t : MapTree K V) (key : K)
      → IsOrdered less (inorder t)
      → map_lookup less t key ≡ lookup less (inorder t) key
  unfolding map_lookup lookup
  map_lookup-eq-lookup leaf key o = refl
  map_lookup-eq-lookup (node (k, v) l r h) key o =
      let s = IsOrdered-Split less (inorder l) k v (inorder r) o in
      elim (Bool-cases (less key k)) [
        | inl before ↦ rw before (
            map_lookup-eq-lookup l key s.left
            ∙ sym (lookup-left order (inorder l) k v (inorder r) s key before))
        | inr not_before ↦ elim (Bool-cases (less k key)) [
          | inl behind ↦
              rw (not_before, behind)
                (map_lookup-eq-lookup r key s.right
                  ∙ sym (lookup-right order (inorder l) k v (inorder r) s key not_before behind))
          | inr here ↦
              rw (not_before, here)
                (sym (lookup_here order (inorder l) k v (inorder r) s key not_before here))
        ]
      ]

  -- For a strict order, on a balanced search tree `mapInsert` meets no nil child; it inserts the entry
  -- into the ordered list of entries, or gives the entry of an equivalent key the new value. The tree it gives is
  -- balanced, of the same height or one more.
  pub map_insert-Grown :
      (t : MapTree K V) (key : K) (val : V)
      → IsAvl t
      → IsOrdered less (inorder t)
      → (u : MapTree K V) × (map_insert less t key val ≡ some u)
        × Grown (height t) (insert less (inorder t) key val) u
  unfolding map_insert insert
  map_insert-Grown leaf key val avl o = (_, refl, single-Grown (key, val))
  map_insert-Grown (node (k, v) l r h) key val (al, ar, e, p, q) o =
      let s = IsOrdered-Split less (inorder l) k v (inorder r) o in
      elim (Bool-cases (less key k)) [
        | inl before ↦
            let (left, done, g) = map_insert-Grown l key val al s.left in
            let (u, done', b) =
              rebalance-Rebalanced (k, v) left r g.avl ar (omega (arith, g.high))
                (omega (arith, g.low)) in
            (
              u,
              rw (before, done) done',
              Rebalanced-Grown e p q g.low g.high (inl b) (
                  ap (λ (xs : List (K × V)). xs ++ ((k, v) ∷ inorder r)) g.same
                  ∙ sym (insert-left less (inorder l) k v (inorder r) key val before)),
            )
        | inr not_before ↦ elim (Bool-cases (less k key)) [
          | inl behind ↦
              let (right, done, g) = map_insert-Grown r key val ar s.right in
              let (u, done', b) =
                rebalance-Rebalanced (k, v) l right al g.avl (omega (arith, g.low))
                  (omega (arith, g.high)) in
              (
                u,
                rw (not_before, behind, done) done',
                Rebalanced-Grown (e ∙ ap (λ (n : ℕ). n + 1) (max_comm (height l) (height r))) q p
                    g.low g.high (inr b)
                    (ap (λ (xs : List (K × V)). inorder l ++ ((k, v) ∷ xs)) g.same
                      ∙ sym (
                          insert-right order (inorder l) k v (inorder r) s key val not_before
                            behind)),
              )
          | inr here ↦ (
            mk (k, val) l r,
            rw (not_before, here),
            mk-Grown (k, val) l r al ar e p q
                (sym (insert_here order (inorder l) k v (inorder r) s key val not_before here)),
          )
        ]
      ]

  -- `mapMin` is the first entry.
  map_min-head :
      (x : K × V) (l r : MapTree K V) (h : ℕ)
      → (m : K × V) × (rest : List (K × V)) × (map_min (node x l r h) ≡ some m)
        × (inorder (node x l r h) ≡ m ∷ rest)
  unfolding map_min
  map_min-head x leaf r h = (x, inorder r, refl, refl)
  map_min-head x (node y ll lr lh) r h =
      let (m, rest, least, head) = map_min-head y ll lr lh in
      (m, rest ++ (x ∷ inorder r), least, ap (λ (xs : List (K × V)). xs ++ (x ∷ inorder r)) head)

  delete-head : (m : K × V) (rest : List (K × V)) → delete less (m ∷ rest) m.0 ≡ rest
  unfolding delete
  delete-head (k, v) rest = rw (lt_irrefl order k) refl

  -- Deleting the root joins what is on its two sides.
  delete_root-Shrunk :
      (x : K × V) (l r : MapTree K V) (h : ℕ)
      → IsAvl (node x l r h)
      → IsOrdered less (inorder r)
      → ((j : K)
          → (u : MapTree K V) × (map_delete less r j ≡ some (u, lookup less (inorder r) j))
            × Shrunk (height r) (delete less (inorder r) j) u)
      → (u : MapTree K V) × (delete_root x.1 l r (map_delete less r) ≡ some (u, some x.1))
        × Shrunk h (inorder l ++ inorder r) u
  unfolding delete_root
  delete_root-Shrunk x leaf r h (al, ar, e, p, q) o ih =
      (r, refl, unchanged r ar refl (omega arith) (omega arith))
  delete_root-Shrunk x (node y ll lr lh) leaf h (al, ar, e, p, q) o ih = (
    node y ll lr lh,
    refl,
    unchanged (node y ll lr lh) al (sym (append-nil _)) (omega arith) (omega arith),
  )
  delete_root-Shrunk x (node y ll lr lh) (node z rl rr rh) h (al, ar, e, p, q) o ih =
      let (m, rest, least, head) = map_min-head z rl rr rh in
      let (nr, done, g) = ih m.0 in
      let (u, done', b) =
        rebalance-Rebalanced m (node y ll lr lh) nr al g.avl (omega (arith, g.low))
          (omega (arith, g.high)) in
      (
        u,
        rw (least, done) (rw done'),
        Rebalanced-Shrunk (e ∙ ap (λ (n : ℕ). n + 1) (max_comm lh rh)) q p g.low g.high (inr b) (
            ap (λ (xs : List (K × V)). (inorder ll ++ (y ∷ inorder lr)) ++ (m ∷ xs))
              (g.same ∙ ap (λ (xs : List (K × V)). delete less xs m.0) head ∙ delete-head m rest)
            ∙ ap (λ (xs : List (K × V)). (inorder ll ++ (y ∷ inorder lr)) ++ xs) (sym head)),
      )

  -- For a strict order, on a balanced search tree `mapDelete` meets no nil child. It returns what a
  -- lookup of the key would, and deletes the entry of an equivalent key from the ordered list of entries. The tree it
  -- gives is balanced, of the same height or one less.
  pub map_delete-Shrunk :
      (t : MapTree K V) (key : K)
      → IsAvl t
      → IsOrdered less (inorder t)
      → (u : MapTree K V) × (map_delete less t key ≡ some (u, lookup less (inorder t) key))
        × Shrunk (height t) (delete less (inorder t) key) u
  unfolding map_delete lookup delete
  map_delete-Shrunk leaf key avl o =
      (leaf, refl, unchanged leaf tt refl (omega arith) (omega arith))
  map_delete-Shrunk (node (k, v) l r h) key (al, ar, e, p, q) o =
      let s = IsOrdered-Split less (inorder l) k v (inorder r) o in
      elim (Bool-cases (less key k)) [
        | inl before ↦
            let (left, done, g) = map_delete-Shrunk l key al s.left in
            let (u, done', b) =
              rebalance-Rebalanced (k, v) left r g.avl ar (omega (arith, g.high))
                (omega (arith, g.low)) in
            (
              u,
              rw (before, done, lookup-left order (inorder l) k v (inorder r) s key before)
                  (rw done'),
              Rebalanced-Shrunk e p q g.low g.high (inl b) (
                  ap (λ (xs : List (K × V)). xs ++ ((k, v) ∷ inorder r)) g.same
                  ∙ sym (delete-left order (inorder l) k v (inorder r) s key before)),
            )
        | inr not_before ↦ elim (Bool-cases (less k key)) [
          | inl behind ↦
              let (right, done, g) = map_delete-Shrunk r key ar s.right in
              let (u, done', b) =
                rebalance-Rebalanced (k, v) l right al g.avl (omega (arith, g.low))
                  (omega (arith, g.high)) in
              (
                u,
                rw
                    (
                      not_before,
                      behind,
                      done,
                      lookup-right order (inorder l) k v (inorder r) s key not_before behind,
                    )
                    (rw done'),
                Rebalanced-Shrunk (e ∙ ap (λ (n : ℕ). n + 1) (max_comm (height l) (height r))) q p
                    g.low g.high (inr b)
                    (ap (λ (xs : List (K × V)). inorder l ++ ((k, v) ∷ xs)) g.same
                      ∙ sym
                          (delete-right order (inorder l) k v (inorder r) s key not_before behind)),
              )
          | inr here ↦
              let found = lookup_here order (inorder l) k v (inorder r) s key not_before here in
              let gone = delete_here order (inorder l) k v (inorder r) s key not_before here in
              rw (not_before, here, found, gone)
                (delete_root-Shrunk (k, v) l r h (al, ar, e, p, q) s.right
                  (λ j. map_delete-Shrunk r j ar s.right))
        ]
      ]
