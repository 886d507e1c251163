-- ===== src/Wf/DequeTree.antt =====
-- wf/deque.go: the operations of the wait-free deque on its persistent tree.
pub mod Sequence
pub mod Refine
pub mod Depth
mod Tests
use lockfree.Base.{Option, none, some, ◌>>=◌}
use lockfree.Wf.Avl.{Tree, leaf, node, mk, rebalance}

-- `none` is a nil dereference in a rotation. A pop returns the new tree, and `(v, true)` as `some v`
-- or `(zero, false)` as `none`.
module _ {ℓ} {A : Type ℓ} where
  unfoldable pub tree_push_front : Tree A → A → Option (Tree A)
  tree_push_front leaf x = some (mk x leaf leaf)
  tree_push_front (node v l r h) x = do left ← tree_push_front l x; rebalance (mk v left r)

  unfoldable pub tree_push_back : Tree A → A → Option (Tree A)
  tree_push_back leaf x = some (mk x leaf leaf)
  tree_push_back (node v l r h) x = do right ← tree_push_back r x; rebalance (mk v l right)

  unfoldable pub tree_pop_front : Tree A → Option (Tree A × Option A)
  tree_pop_front leaf = some (leaf, none)
  tree_pop_front (node v leaf r h) = some (r, some v)
  tree_pop_front (node v (node lv ll lr lh) r h) = do
    (left, x) ← tree_pop_front (node lv ll lr lh)
    t ← rebalance (mk v left r)
    some (t, x)

  unfoldable pub tree_pop_back : Tree A → Option (Tree A × Option A)
  tree_pop_back leaf = some (leaf, none)
  tree_pop_back (node v l leaf h) = some (l, some v)
  tree_pop_back (node v l (node rv rl rr rh) h) = do
    (right, x) ← tree_pop_back (node rv rl rr rh)
    t ← rebalance (mk v l right)
    some (t, x)
