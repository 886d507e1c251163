-- ===== src/Wf/MapTree/RoundTrip.antt =====
-- wf/map.go: what a lookup in the tree finds after an insertion and after a deletion.
use lockfree.Base.{◌≡◌, sym, ap, ◌∙◌, ◌||◌, Option, none, some, List, if◌then◌else◌}
use lockfree.Base.Less.{Less, IsStrictOrder}
use lockfree.Wf.Avl.Balance.{inorder, IsAvl}
use lockfree.Wf.MapTree.{MapTree, map_insert, map_lookup, map_delete}
use lockfree.Wf.MapTree.SortedList.{lookup, IsOrdered}
use lockfree.Wf.MapTree.Refine.{map_lookup-eq-lookup, map_insert-Grown, map_delete-Shrunk}
use lockfree.Wf.MapTree.Laws.{insert-IsOrdered, delete-IsOrdered, lookup-insert, lookup-delete}

module _ {ℓ κ} {K : Type ℓ} {V : Type κ} {less : Less K} (order : IsStrictOrder less) where
  -- For a strict order, `mapInsert` into a balanced search tree gives a balanced search tree in which
  -- the key and its equivalents have the new value and every other key what it had.
  pub map_lookup-map_insert :
      (t : MapTree K V) (key : K) (val : V) (j : K)
      → IsAvl t
      → IsOrdered less (inorder t)
      → (u : MapTree K V) × (map_insert less t key val ≡ some u)
        × IsAvl u
        × IsOrdered less (inorder u)
        × (map_lookup less u j
            ≡ (if less j key || less key j then map_lookup less t j else some val))
  map_lookup-map_insert t key val j avl o =
      let (u, done, g) = map_insert-Grown order t key val avl o in
      let o' = insert-IsOrdered order (inorder t) key val o in
      (
        u,
        done,
        g.avl,
        rw g.same o',
        map_lookup-eq-lookup order u j (rw g.same o')
            ∙ ap (λ (xs : List (K × V)). lookup less xs j) g.same
            ∙ lookup-insert order (inorder t) key val j
            ∙ ap (λ (v : Option V). if less j key || less key j then v else some val)
                (sym (map_lookup-eq-lookup order t j o)),
      )

  -- For a strict order, `mapDelete` from a balanced search tree returns what the key has there, and
  -- gives a balanced search tree in which the key and its equivalents have no value and every other
  -- key has what it had.
  pub map_lookup-map_delete :
      (t : MapTree K V) (key j : K)
      → IsAvl t
      → IsOrdered less (inorder t)
      → (u : MapTree K V) × (map_delete less t key ≡ some (u, map_lookup less t key))
        × IsAvl u
        × IsOrdered less (inorder u)
        × (map_lookup less u j ≡ (if less j key || less key j then map_lookup less t j else none))
  map_lookup-map_delete t key j avl o =
      let (u, done, g) = map_delete-Shrunk order t key avl o in
      let o' = delete-IsOrdered order (inorder t) key o in
      (
        u,
        rw (map_lookup-eq-lookup order t key o) done,
        g.avl,
        rw g.same o',
        map_lookup-eq-lookup order u j (rw g.same o')
            ∙ ap (λ (xs : List (K × V)). lookup less xs j) g.same
            ∙ lookup-delete order (inorder t) key j o
            ∙ ap (λ (v : Option V). if less j key || less key j then v else none)
                (sym (map_lookup-eq-lookup order t j o)),
      )
