-- ===== src/Wf/MapTree/Tests.antt =====
-- wf/map.go: runs of the map's operations on a tree, and their theorems at it.
use lockfree.Base.{ℕ, ◌≡◌, ◌||◌, refl, none, some, ltb, arith, if◌then◌else◌}
use lockfree.Base.Less.{ltb-IsStrictOrder}
use lockfree.Wf.Avl.{leaf, height, mk, rebalance, taller}
use lockfree.Wf.Avl.Balance.{inorder, IsAvl}
use lockfree.Wf.Avl.Change.{Grown, Shrunk}
use lockfree.Wf.MapTree.{MapTree, map_insert, map_lookup, map_delete, delete_root, map_min}
use lockfree.Wf.MapTree.SortedList.{lookup, insert, delete, IsOrdered}
use lockfree.Wf.MapTree.Refine.{map_lookup-eq-lookup, map_insert-Grown, map_delete-Shrunk}
use lockfree.Wf.MapTree.RoundTrip.{map_lookup-map_insert, map_lookup-map_delete}

-- Keys 2, 4 and 6.
abbrev small : MapTree ℕ ℕ
small = mk (4, 40) (mk (2, 20) leaf leaf) (mk (6, 60) leaf leaf)

small-IsAvl : IsAvl small
unfolding taller
small-IsAvl = (
  (tt, tt, omega arith, omega arith, omega arith),
  (tt, tt, omega arith, omega arith, omega arith),
  omega arith,
  omega arith,
  omega arith,
)

small-IsOrdered : IsOrdered ltb (inorder small)
small-IsOrdered = ((refl, (refl, tt)), ((refl, tt), (tt, tt)))

map_runs :
    (map_lookup ltb small 6 ≡ some 60)
    × (map_lookup ltb small 5 ≡ none)
    × (map_insert ltb small 4 41 ≡ some (mk (4, 41) (mk (2, 20) leaf leaf) (mk (6, 60) leaf leaf)))
    × (map_delete ltb small 4 ≡ some (mk (6, 60) (mk (2, 20) leaf leaf) leaf, some 40))
unfolding map_lookup map_insert map_delete delete_root map_min rebalance taller
map_runs = (refl, refl, refl, refl)

map_lookup-eq-lookup_example : map_lookup ltb small 6 ≡ lookup ltb (inorder small) 6
map_lookup-eq-lookup_example = map_lookup-eq-lookup ltb-IsStrictOrder small 6 small-IsOrdered

map_insert-Grown_example :
    (u : MapTree ℕ ℕ) × (map_insert ltb small 5 50 ≡ some u)
    × Grown (height small) (insert ltb (inorder small) 5 50) u
map_insert-Grown_example = map_insert-Grown ltb-IsStrictOrder small 5 50 small-IsAvl small-IsOrdered

map_delete-Shrunk_example :
    (u : MapTree ℕ ℕ) × (map_delete ltb small 4 ≡ some (u, lookup ltb (inorder small) 4))
    × Shrunk (height small) (delete ltb (inorder small) 4) u
map_delete-Shrunk_example = map_delete-Shrunk ltb-IsStrictOrder small 4 small-IsAvl small-IsOrdered

map_lookup-map_insert_example :
    (u : MapTree ℕ ℕ) × (map_insert ltb small 5 50 ≡ some u)
    × IsAvl u
    × IsOrdered ltb (inorder u)
    × (map_lookup ltb u 5 ≡ (if ltb 5 5 || ltb 5 5 then map_lookup ltb small 5 else some 50))
map_lookup-map_insert_example =
    map_lookup-map_insert ltb-IsStrictOrder small 5 50 5 small-IsAvl small-IsOrdered

map_lookup-map_delete_example :
    (u : MapTree ℕ ℕ) × (map_delete ltb small 4 ≡ some (u, map_lookup ltb small 4))
    × IsAvl u
    × IsOrdered ltb (inorder u)
    × (map_lookup ltb u 6 ≡ (if ltb 6 4 || ltb 4 6 then map_lookup ltb small 6 else none))
map_lookup-map_delete_example =
    map_lookup-map_delete ltb-IsStrictOrder small 4 6 small-IsAvl small-IsOrdered
