-- ===== src/Wf/MapTree.antt =====
-- wf/map.go: the operations of the wait-free map on its persistent search tree. A node's `key` and
-- `val` are the pair that the nodes of the deque's tree hold one value for; `mapHeight`, `mkMapNode`,
-- the rotations and `rebalanceMap` are then the deque's functions at that pair.
pub mod SortedList
pub mod Splits
pub mod Refine
pub mod Laws
pub mod RoundTrip
mod Tests
use lockfree.Base.{ℕ, Bool, true, false, Option, none, some, if◌then◌else◌, ◌>>=◌}
use lockfree.Base.Less.{Less}
use lockfree.Wf.Avl.{Tree, leaf, node, height, mk, rotate_right, rotate_left, rebalance}

-- `*mapTreeNode[K, V]`
abbrev pub MapTree {ℓ κ} : Type ℓ → Type κ → Type (ℓ ⊔ κ)
MapTree K V = Tree (K × V)

module _ {ℓ κ} {K : Type ℓ} {V : Type κ} where
  abbrev pub map_height : MapTree K V → ℕ
  map_height = height

  abbrev pub mk_map_node : K → V → MapTree K V → MapTree K V → MapTree K V
  mk_map_node key val = mk (key, val)

  abbrev pub rotate_map_right : MapTree K V → Option (MapTree K V)
  rotate_map_right = rotate_right

  abbrev pub rotate_map_left : MapTree K V → Option (MapTree K V)
  rotate_map_left = rotate_left

  abbrev pub rebalance_map : MapTree K V → Option (MapTree K V)
  rebalance_map = rebalance

  abbrev is_nil : MapTree K V → Bool
  is_nil leaf = true
  is_nil (node e l r h) = false

  -- `none` is the dereference of a nil tree.
  unfoldable pub map_min : MapTree K V → Option (K × V)
  map_min leaf = none
  map_min (node e leaf r h) = some e
  map_min (node e (node le ll lr lh) r h) = map_min (node le ll lr lh)

  -- The last case of `mapDelete`, at a node of value `v`: `delete_right` is `mapDelete` on `n.right`.
  unfoldable pub delete_root :
      V
      → MapTree K V
      → MapTree K V
      → (K → Option (MapTree K V × Option V))
      → Option (MapTree K V × Option V)
  delete_root v l r delete_right =
      if is_nil l then some (r, some v) else if is_nil r then some (l, some v) else (do
        (sk, sv) ← map_min r
        (nr, _) ← delete_right sk
        t ← rebalance_map (mk_map_node sk sv l nr)
        some (t, some v))

  module _ (less : Less K) where
    unfoldable pub map_insert : MapTree K V → K → V → Option (MapTree K V)
    map_insert leaf key val = some (mk_map_node key val leaf leaf)
    map_insert (node (k, v) l r h) key val =
        let left = (do t ← map_insert l key val; rebalance_map (mk_map_node k v t r)) in
        let right = (do t ← map_insert r key val; rebalance_map (mk_map_node k v l t)) in
        if less key k then left else if less k key then right else some (mk_map_node k val l r)

    -- The loop goes down one branch. `(zero, false)` is `none`.
    unfoldable pub map_lookup : MapTree K V → K → Option V
    map_lookup leaf key = none
    map_lookup (node (k, v) l r h) key =
        let left = map_lookup l key in
        let right = map_lookup r key in
        if less key k then left else if less k key then right else some v

    -- The outer option is a panic; the inner one is the removed value, `none` for `(zero, false)`.
    unfoldable pub map_delete : MapTree K V → K → Option (MapTree K V × Option V)
    map_delete leaf key = some (leaf, none)
    map_delete (node (k, v) l r h) key =
        let left = (do
          (nl, old) ← map_delete l key
          t ← rebalance_map (mk_map_node k v nl r)
          some (t, old)) in
        let right = (do
          (nr, old) ← map_delete r key
          t ← rebalance_map (mk_map_node k v l nr)
          some (t, old)) in
        let here = delete_root v l r (map_delete r) in
        if less key k then left else if less k key then right else here
