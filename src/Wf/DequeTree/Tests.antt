-- ===== src/Wf/DequeTree/Tests.antt =====
-- wf/deque.go: runs of the deque's operations on a tree, and their theorems at it.
use lockfree.Base.{ℕ, ◌≡◌, refl, some, [], ◌∷◌, arith, ◌++◌}
use lockfree.Wf.Avl.{Tree, leaf, height, mk, rebalance, taller}
use lockfree.Wf.Avl.Balance.{inorder, IsAvl, Rebalanced, rebalance-Rebalanced}
use lockfree.Wf.Avl.Change.{Grown, Shrunk}
use lockfree.Wf.DequeTree.{tree_push_front, tree_push_back, tree_pop_front, tree_pop_back}
use lockfree.Wf.DequeTree.Sequence.{push_front, push_back, pop_front, pop_back}
use lockfree.Wf.DequeTree.Refine.{
  tree_push_front-Grown, tree_push_back-Grown, tree_pop_front-Shrunk, tree_pop_back-Shrunk,
}

-- 2 and 4 before 7: a push at the front has to rotate.
abbrev leaning : Tree ℕ
leaning = mk 4 (mk 2 leaf leaf) leaf

leaning-IsAvl : IsAvl leaning
unfolding taller
leaning-IsAvl =
    ((tt, tt, omega arith, omega arith, omega arith), tt, omega arith, omega arith, omega arith)

rotated : tree_push_front leaning 1 ≡ some (mk 2 (mk 1 leaf leaf) (mk 4 leaf leaf))
unfolding tree_push_front rebalance taller
rotated = refl

popped_back : tree_pop_back leaning ≡ some (mk 2 leaf leaf, some 4)
unfolding tree_pop_back
popped_back = refl

tree_push_front-Grown_example :
    (u : Tree ℕ) × (tree_push_front leaning 1 ≡ some u)
    × Grown (height leaning) (push_front (inorder leaning) 1) u
tree_push_front-Grown_example = tree_push_front-Grown leaning 1 leaning-IsAvl

tree_push_back-Grown_example :
    (u : Tree ℕ) × (tree_push_back leaning 7 ≡ some u)
    × Grown (height leaning) (push_back (inorder leaning) 7) u
tree_push_back-Grown_example = tree_push_back-Grown leaning 7 leaning-IsAvl

tree_pop_front-Shrunk_example :
    (u : Tree ℕ) × (tree_pop_front leaning ≡ some (u, (pop_front (inorder leaning)).1))
    × Shrunk (height leaning) (pop_front (inorder leaning)).0 u
tree_pop_front-Shrunk_example = tree_pop_front-Shrunk leaning leaning-IsAvl

tree_pop_back-Shrunk_example :
    (u : Tree ℕ) × (tree_pop_back leaning ≡ some (u, (pop_back (inorder leaning)).1))
    × Shrunk (height leaning) (pop_back (inorder leaning)).0 u
tree_pop_back-Shrunk_example = tree_pop_back-Shrunk leaning leaning-IsAvl

-- The left subtree is two higher than the right one.
rebalance-Rebalanced_example :
    (u : Tree ℕ) × (rebalance (mk 9 leaning leaf) ≡ some u)
    × Rebalanced 2 0 (inorder leaning ++ (9 ∷ [])) u
unfolding taller
rebalance-Rebalanced_example =
    rebalance-Rebalanced 9 leaning leaf leaning-IsAvl tt (omega arith) (omega arith)
