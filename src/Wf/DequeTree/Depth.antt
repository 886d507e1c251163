-- ===== src/Wf/DequeTree/Depth.antt =====
-- wf/deque.go: the height of a balanced tree.
use native.Mathlib.Nat.{pow-suc, pow-le-pow_right, le_trans}
use lockfree.Base.{ℕ, suc, ◌+◌, ◌*◌, ◌/◌, ◌^◌, ◌≤◌, ◌≡◌, ◌∷◌, length, length-append, arith}
use lockfree.Wf.Avl.{Tree, leaf, node, height}
use lockfree.Wf.Avl.Balance.{inorder, IsAvl}

pow-half_mono : (a b : ℕ) → a ≤ b + 2 → 2 ^ (a / 2) ≤ 2 * 2 ^ (b / 2)
pow-half_mono a b h =
    le_trans (pow-le-pow_right (omega arith) {j = suc (b / 2)} (omega arith))
      (omega (arith, pow-suc 2 (b / 2)))

module _ {ℓ} {A : Type ℓ} where
  -- A balanced tree of height `h` has at least 2 ^ (h / 2) - 1 elements.
  pub pow-height-le : (t : Tree A) → IsAvl t → 2 ^ (height t / 2) ≤ length (inorder t) + 1
  pow-height-le leaf avl = omega arith
  pow-height-le (node v l r h) (al, ar, e, p, q) =
      let count : length (inorder (node v l r h)) ≡ length (inorder l) + suc (length (inorder r)) =
        length-append (inorder l) (v ∷ inorder r) in
      omega (
        arith,
        count,
        pow-height-le l al,
        pow-height-le r ar,
        pow-half_mono h (height l) (omega arith),
        pow-half_mono h (height r) (omega arith),
      )
