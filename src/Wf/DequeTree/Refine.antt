-- ===== src/Wf/DequeTree/Refine.antt =====
-- wf/deque.go: on a balanced tree each operation returns, does to the in-order sequence what a
-- deque does to its list, and leaves the tree balanced.
use native.Mathlib.Nat.{max_comm}
use lockfree.Base.{
  ℕ, ◌+◌, ◌≡◌, refl, inl, inr, sym, ◌∙◌, ap, Option, some, List, [], ◌∷◌, ◌++◌, append_assoc, arith,
}
use lockfree.Wf.Avl.{Tree, leaf, node, height, mk}
use lockfree.Wf.Avl.Balance.{inorder, IsAvl, rebalance-Rebalanced}
use lockfree.Wf.Avl.Change.{
  Grown, Shrunk, Rebalanced-Grown, Rebalanced-Shrunk, unchanged, single-Grown,
}
use lockfree.Wf.DequeTree.{tree_push_front, tree_push_back, tree_pop_front, tree_pop_back}
use lockfree.Wf.DequeTree.Sequence.{
  push_front, push_back, pop_front, pop_back, pop_front-middle, pop_back-middle, pop_back-push_back,
}

module _ {ℓ} {A : Type ℓ} where
  abbrev rest_of : List A × Option A → List A
  rest_of p = p.0

  -- On a balanced tree `treePushFront` meets no nil child, and gives a balanced tree with `x` before
  -- the elements that were there, of the same height or one more.
  pub tree_push_front-Grown :
      (t : Tree A) (x : A)
      → IsAvl t
      → (u : Tree A) × (tree_push_front t x ≡ some u)
        × Grown (height t) (push_front (inorder t) x) u
  unfolding tree_push_front
  tree_push_front-Grown leaf x avl = (mk x leaf leaf, refl, single-Grown x)
  tree_push_front-Grown (node v l r h) x (al, ar, e, p, q) =
      let (left, done, g) = tree_push_front-Grown l x al in
      let (u, done', b) =
        rebalance-Rebalanced v left r g.avl ar (omega (arith, g.high)) (omega (arith, g.low)) in
      (
        u,
        rw done done',
        Rebalanced-Grown e p q g.low g.high (inl b)
            (ap (λ (xs : List A). xs ++ (v ∷ inorder r)) g.same),
      )

  -- On a balanced tree `treePushBack` meets no nil child, and gives a balanced tree with `x` behind
  -- the elements that were there, of the same height or one more.
  pub tree_push_back-Grown :
      (t : Tree A) (x : A)
      → IsAvl t
      → (u : Tree A) × (tree_push_back t x ≡ some u) × Grown (height t) (push_back (inorder t) x) u
  unfolding tree_push_back
  tree_push_back-Grown leaf x avl = (mk x leaf leaf, refl, single-Grown x)
  tree_push_back-Grown (node v l r h) x (al, ar, e, p, q) =
      let (right, done, g) = tree_push_back-Grown r x ar in
      let (u, done', b) =
        rebalance-Rebalanced v l right al g.avl (omega (arith, g.low)) (omega (arith, g.high)) in
      (
        u,
        rw done done',
        Rebalanced-Grown (e ∙ ap (λ (n : ℕ). n + 1) (max_comm (height l) (height r))) q p g.low
            g.high (inr b)
            (ap (λ (xs : List A). inorder l ++ (v ∷ xs)) g.same
              ∙ sym (append_assoc (inorder l) (v ∷ inorder r) (x ∷ []))),
      )

  -- On a balanced tree `treePopFront` meets no nil child. It answers like the pop at the front of
  -- the list of elements, and leaves a balanced tree of the rest, of the same height or one less.
  pub tree_pop_front-Shrunk :
      (t : Tree A)
      → IsAvl t
      → (u : Tree A) × (tree_pop_front t ≡ some (u, (pop_front (inorder t)).1))
        × Shrunk (height t) (pop_front (inorder t)).0 u
  unfolding tree_pop_front
  tree_pop_front-Shrunk leaf avl = (leaf, refl, unchanged leaf tt refl (omega arith) (omega arith))
  tree_pop_front-Shrunk (node v leaf r h) (al, ar, e, p, q) =
      (r, refl, unchanged r ar refl (omega arith) (omega arith))
  tree_pop_front-Shrunk (node v (node lv ll lr lh) r h) (al, ar, e, p, q) =
      let (left, done, g) = tree_pop_front-Shrunk (node lv ll lr lh) al in
      let (u, done', b) =
        rebalance-Rebalanced v left r g.avl ar (omega (arith, g.high)) (omega (arith, g.low)) in
      let taken = pop_front-middle (inorder ll) lv (inorder lr) (v ∷ inorder r) in
      (
        u,
        rw (done, taken) (rw done'),
        Rebalanced-Shrunk e p q g.low g.high (inl b)
            (ap (λ (xs : List A). xs ++ (v ∷ inorder r)) g.same ∙ sym (ap rest_of taken)),
      )

  -- On a balanced tree `treePopBack` meets no nil child. It answers like the pop at the back of the
  -- list of elements, and leaves a balanced tree of the rest, of the same height or one less.
  pub tree_pop_back-Shrunk :
      (t : Tree A)
      → IsAvl t
      → (u : Tree A) × (tree_pop_back t ≡ some (u, (pop_back (inorder t)).1))
        × Shrunk (height t) (pop_back (inorder t)).0 u
  unfolding tree_pop_back
  tree_pop_back-Shrunk leaf avl = (leaf, refl, unchanged leaf tt refl (omega arith) (omega arith))
  tree_pop_back-Shrunk (node v l leaf h) (al, ar, e, p, q) =
      let last = pop_back-push_back (inorder l) v in
      (l, rw last, unchanged l al (sym (ap rest_of last)) (omega arith) (omega arith))
  tree_pop_back-Shrunk (node v l (node rv rl rr rh) h) (al, ar, e, p, q) =
      let (right, done, g) = tree_pop_back-Shrunk (node rv rl rr rh) ar in
      let (u, done', b) =
        rebalance-Rebalanced v l right al g.avl (omega (arith, g.low)) (omega (arith, g.high)) in
      let taken = pop_back-middle (inorder l) v (inorder rl) rv (inorder rr) in
      (
        u,
        rw (done, taken) (rw done'),
        Rebalanced-Shrunk (e ∙ ap (λ (n : ℕ). n + 1) (max_comm (height l) rh)) q p g.low g.high
            (inr b) (ap (λ (xs : List A). inorder l ++ (v ∷ xs)) g.same ∙ sym (ap rest_of taken)),
      )
