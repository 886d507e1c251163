-- ===== src/Wf/Deque/Depth.antt =====
-- wf/deque.go: how deep a tree the operations leave.
use lockfree.Base.{Option, List, [], ◌∷◌}
use lockfree.Wf.Avl.{Tree}
use lockfree.Wf.Deque.{DequeOp, deque_apply_op}
use lockfree.Wf.Deque.Refine.{list_apply_op}

module _ {A : Type 0} where
  -- The tree, and the list of the elements, behind some operations.
  unfoldable pub tree_after : List (DequeOp A) → Option (Tree A) → Option (Tree A)
  tree_after [] s = s
  tree_after (op ∷ ops) s = tree_after ops (deque_apply_op op s).0

  unfoldable pub list_after : List (DequeOp A) → List A → List A
  list_after [] xs = xs
  list_after (op ∷ ops) xs = list_after ops (list_apply_op op xs).0
