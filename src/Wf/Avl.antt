-- ===== src/Wf/Avl.antt =====
-- wf/deque.go, `treeNode` and its rotations: the height-balanced trees of the wait-free deque. The
-- same code, with a key and a value in a node, serves the wait-free map.
pub mod Balance
pub mod Change
use lockfree.Base.{ℕ, suc, ◌+◌, Option, none, some, ltb, leb, if◌then◌else◌, ◌>>=◌}

-- `*treeNode[T]`: `leaf` is nil. The last field is `height`, as stored.
pub data Tree {ℓ} (A : Type ℓ) : Type ℓ where
  leaf : Tree A
  node : A → Tree A → Tree A → ℕ → Tree A

-- The `h` of `mk`: the greater of two heights.
unfoldable pub taller : ℕ → ℕ → ℕ
taller h rh = if ltb h rh then rh else h

module _ {ℓ} {A : Type ℓ} where
  abbrev pub height : Tree A → ℕ
  height leaf = 0
  height (node v l r h) = h

  abbrev pub mk : A → Tree A → Tree A → Tree A
  mk v l r = node v l r (taller (height l) (height r) + 1)

  -- `none` is the dereference of a nil child.
  abbrev pub rotate_right : Tree A → Option (Tree A)
  rotate_right (node v (node lv ll lr lh) r h) = some (mk lv ll (mk v lr r))
  rotate_right t = none

  abbrev pub rotate_left : Tree A → Option (Tree A)
  rotate_left (node v l (node rv rl rr rh) h) = some (mk rv (mk v l rl) rr)
  rotate_left t = none

  -- The two unbalanced cases of `rebalance`, at a node with the fields `v l r h`.
  abbrev pub left_heavy : A → Tree A → Tree A → ℕ → Option (Tree A)
  left_heavy v leaf r h = none
  left_heavy v (node lv ll lr lh) r h =
      if leb (height lr) (height ll)
      then rotate_right (node v (node lv ll lr lh) r h)
      else do l ← rotate_left (node lv ll lr lh); rotate_right (mk v l r)

  abbrev pub right_heavy : A → Tree A → Tree A → ℕ → Option (Tree A)
  right_heavy v l leaf h = none
  right_heavy v l (node rv rl rr rh) h =
      if leb (height rl) (height rr)
      then rotate_left (node v l (node rv rl rr rh) h)
      else do r ← rotate_right (node rv rl rr rh); rotate_left (mk v l r)

  -- `bf > 1` and `bf < -1`, for `bf = height(left) - height(right)`.
  unfoldable pub rebalance : Tree A → Option (Tree A)
  rebalance leaf = none
  rebalance (node v l r h) =
      if ltb (height r + 1) (height l)
      then left_heavy v l r h
      else if ltb (height l + 1) (height r)
      then right_heavy v l r h
      else some (node v l r h)
