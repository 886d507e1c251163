-- ===== src/Wf/Avl/Change.antt =====
-- wf/deque.go and wf/map.go: how an operation changes the height of the tree that it rebuilds.
use Prim.Native.Nat.{max}
use lockfree.Base.{◌++◌, ℕ, ◌+◌, ◌≤◌, ◌≡◌, refl, ◌⊎◌, inl, inr, ◌∙◌, List, [], ◌∷◌, arith}
use lockfree.Wf.Avl.{Tree, leaf, height, mk}
use lockfree.Wf.Avl.Balance.{mk-IsAvl, taller-eq-max, inorder, IsAvl, Rebalanced}

module _ {ℓ} {A : Type ℓ} where
  -- `u` is a balanced tree of `xs`, of height `h` or one more.
  pub record Grown (h : ℕ) (xs : List A) (u : Tree A) : Type ℓ where
    pub same : inorder u ≡ xs
    pub avl : IsAvl u
    pub low : h ≤ height u
    pub high : height u ≤ h + 1

  -- `u` is a balanced tree of `xs`, of height `h` or one less.
  pub record Shrunk (h : ℕ) (xs : List A) (u : Tree A) : Type ℓ where
    pub same : inorder u ≡ xs
    pub avl : IsAvl u
    pub low : h ≤ height u + 1
    pub high : height u ≤ h

  -- Heights when one subtree has grown from `k` to `k'`, and the other has height `m`.
  pub Rebalanced-Grown :
      {h k k' m : ℕ} {xs ys : List A} {u : Tree A}
      → h ≡ max k m + 1
      → k ≤ m + 1
      → m ≤ k + 1
      → k ≤ k'
      → k' ≤ k + 1
      → Rebalanced k' m xs u ⊎ Rebalanced m k' xs u
      → xs ≡ ys
      → Grown h ys u
  Rebalanced-Grown e p q lo hi (inl b) same = record {
    same = b.same ∙ same;
    avl = b.avl;
    low = omega (arith, b.low, b.kept);
    high = omega (arith, b.high, b.kept);
  }
  Rebalanced-Grown e p q lo hi (inr b) same = record {
    same = b.same ∙ same;
    avl = b.avl;
    low = omega (arith, b.low, b.kept);
    high = omega (arith, b.high, b.kept);
  }

  -- The same when one subtree has shrunk.
  pub Rebalanced-Shrunk :
      {h k k' m : ℕ} {xs ys : List A} {u : Tree A}
      → h ≡ max k m + 1
      → k ≤ m + 1
      → m ≤ k + 1
      → k ≤ k' + 1
      → k' ≤ k
      → Rebalanced k' m xs u ⊎ Rebalanced m k' xs u
      → xs ≡ ys
      → Shrunk h ys u
  Rebalanced-Shrunk e p q lo hi (inl b) same = record {
    same = b.same ∙ same;
    avl = b.avl;
    low = omega (arith, b.low, b.kept);
    high = omega (arith, b.high, b.kept);
  }
  Rebalanced-Shrunk e p q lo hi (inr b) same = record {
    same = b.same ∙ same;
    avl = b.avl;
    low = omega (arith, b.low, b.kept);
    high = omega (arith, b.high, b.kept);
  }

  pub unchanged :
      (u : Tree A) {h : ℕ} {xs : List A}
      → IsAvl u
      → inorder u ≡ xs
      → h ≤ height u + 1
      → height u ≤ h
      → Shrunk h xs u
  unchanged u avl same low high = record { same = same; avl = avl; low = low; high = high }

  pub single-Grown : (x : A) → Grown 0 (x ∷ []) (mk x leaf leaf)
  single-Grown x = record {
    same = refl;
    avl = (tt, tt, omega (arith, taller-eq-max), omega arith, omega arith);
    low = omega arith;
    high = omega (arith, taller-eq-max);
  }

  -- The heights at a node whose value alone is new.
  pub mk-Grown :
      (v : A) (l r : Tree A) {h : ℕ} {xs : List A}
      → IsAvl l
      → IsAvl r
      → h ≡ max (height l) (height r) + 1
      → height l ≤ height r + 1
      → height r ≤ height l + 1
      → inorder l ++ (v ∷ inorder r) ≡ xs
      → Grown h xs (mk v l r)
  mk-Grown v l r al ar e p q same = record {
    same = same;
    avl = mk-IsAvl v l r al ar p q;
    low = omega (arith, taller-eq-max);
    high = omega (arith, taller-eq-max);
  }
