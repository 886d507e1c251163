-- ===== src/Wf/Avl/Balance.antt =====
-- wf/deque.go, `rebalance`: the AVL invariant, and what a rebalanced node is.
use Prim.Native.Nat.{max}
use lockfree.Base.{
  ℕ, ◌+◌, ◌≤◌, ◌<◌, ◌≡◌, refl, some, List, [], ◌∷◌, ◌++◌, append_assoc, arith, ltb, leb, leb→le,
  zero-leb, Bool-cases, ◌⊎◌, inl, inr,
}
use lockfree.Wf.Avl.{Tree, leaf, node, taller, height, mk, left_heavy, right_heavy, rebalance}

pub taller-eq-max : (a b : ℕ) → taller a b ≡ max a b
unfolding taller
taller-eq-max a b = ground arith

module _ {ℓ} {A : Type ℓ} where
  -- Front to back.
  abbrev pub inorder : Tree A → List A
  inorder leaf = []
  inorder (node v l r h) = inorder l ++ (v ∷ inorder r)

  -- The stored heights are right, and differ by at most one between siblings.
  abbrev pub IsAvl : Tree A → Type 0
  IsAvl leaf = Unit
  IsAvl (node v l r h) =
      IsAvl l
      × IsAvl r
      × (h ≡ max (height l) (height r) + 1)
      × (height l ≤ height r + 1)
      × (height r ≤ height l + 1)

  -- `u` is a balanced tree of the elements `xs`, for subtrees of heights `hl` and `hr`.
  pub record Rebalanced (hl hr : ℕ) (xs : List A) (u : Tree A) : Type ℓ where
    pub same : inorder u ≡ xs
    pub avl : IsAvl u
    pub low : max hl hr ≤ height u
    pub high : height u ≤ max hl hr + 1
    pub kept : (height u ≡ max hl hr + 1) ⊎ (hl ≡ hr + 2) ⊎ (hr ≡ hl + 2)

  pub mk-IsAvl :
      (v : A) (l r : Tree A)
      → IsAvl l
      → IsAvl r
      → height l ≤ height r + 1
      → height r ≤ height l + 1
      → IsAvl (mk v l r)
  mk-IsAvl v l r al ar p q = (al, ar, omega (arith, taller-eq-max), p, q)

  mk-Rebalanced :
      (v : A) (l r : Tree A) {hl hr : ℕ}
      → IsAvl (mk v l r)
      → max hl hr ≤ height (mk v l r)
      → height (mk v l r) ≤ max hl hr + 1
      → (height (mk v l r) ≡ max hl hr + 1) ⊎ (hl ≡ hr + 2) ⊎ (hr ≡ hl + 2)
      → Rebalanced hl hr (inorder l ++ (v ∷ inorder r)) (mk v l r)
  mk-Rebalanced v l r avl low high kept = record {
    same = refl;
    avl = avl;
    low = low;
    high = high;
    kept = kept;
  }

  regrouped :
      {hl hr : ℕ} {xs ys : List A} {u : Tree A}
      → xs ≡ ys
      → Rebalanced hl hr xs u
      → Rebalanced hl hr ys u
  regrouped e b = rw (← e) b

  ruleset heights = (arith, taller-eq-max)

  -- One rotation, at a left child that leans left or not at all.
  single_right :
      (v lv : A) (ll lr r : Tree A) (lh : ℕ)
      → IsAvl (node lv ll lr lh)
      → IsAvl r
      → lh ≡ height r + 2
      → height lr ≤ height ll
      → Rebalanced lh
          (height r)
          (inorder (node lv ll lr lh) ++ (v ∷ inorder r))
          (mk lv ll (mk v lr r))
  single_right v lv ll lr r lh (al, am, e, p, q) ar h le = regrouped (simp append_assoc) (
      mk-Rebalanced lv ll (mk v lr r)
        (mk-IsAvl lv ll (mk v lr r) al (mk-IsAvl v lr r am ar (omega arith) (omega arith))
          (omega heights) (omega heights))
        (omega heights) (omega heights) (omega heights))

  -- Two rotations, at a left child that leans right.
  double_right :
      (v lv mv : A) (ll ml mr r : Tree A) (mh lh : ℕ)
      → IsAvl (node lv ll (node mv ml mr mh) lh)
      → IsAvl r
      → lh ≡ height r + 2
      → height ll < mh
      → Rebalanced lh
          (height r)
          (inorder (node lv ll (node mv ml mr mh) lh) ++ (v ∷ inorder r))
          (mk mv (mk lv ll ml) (mk v mr r))
  double_right v lv mv ll ml mr r mh lh (al, (am, an, f, s, t), e, p, q) ar h lt =
      regrouped (simp append_assoc) (
        mk-Rebalanced mv (mk lv ll ml) (mk v mr r)
          (mk-IsAvl mv (mk lv ll ml) (mk v mr r)
            (mk-IsAvl lv ll ml al am (omega arith) (omega arith))
            (mk-IsAvl v mr r an ar (omega arith) (omega arith)) (omega heights) (omega heights))
          (omega heights) (omega heights) (omega heights))

  single_left :
      (v rv : A) (l rl rr : Tree A) (rh : ℕ)
      → IsAvl l
      → IsAvl (node rv rl rr rh)
      → rh ≡ height l + 2
      → height rl ≤ height rr
      → Rebalanced
          (height l)
          rh
          (inorder l ++ (v ∷ inorder (node rv rl rr rh)))
          (mk rv (mk v l rl) rr)
  single_left v rv l rl rr rh al (am, ar, e, p, q) h le = regrouped (simp append_assoc) (
      mk-Rebalanced rv (mk v l rl) rr
        (mk-IsAvl rv (mk v l rl) rr (mk-IsAvl v l rl al am (omega arith) (omega arith)) ar
          (omega heights) (omega heights))
        (omega heights) (omega heights) (omega heights))

  double_left :
      (v rv mv : A) (l ml mr rr : Tree A) (mh rh : ℕ)
      → IsAvl l
      → IsAvl (node rv (node mv ml mr mh) rr rh)
      → rh ≡ height l + 2
      → height rr < mh
      → Rebalanced
          (height l)
          rh
          (inorder l ++ (v ∷ inorder (node rv (node mv ml mr mh) rr rh)))
          (mk mv (mk v l ml) (mk rv mr rr))
  double_left v rv mv l ml mr rr mh rh al ((am, an, f, s, t), ar, e, p, q) h lt =
      regrouped (simp append_assoc) (
        mk-Rebalanced mv (mk v l ml) (mk rv mr rr)
          (mk-IsAvl mv (mk v l ml) (mk rv mr rr) (mk-IsAvl v l ml al am (omega arith) (omega arith))
            (mk-IsAvl rv mr rr an ar (omega arith) (omega arith)) (omega heights) (omega heights))
          (omega heights) (omega heights) (omega heights))

  left_heavy-Rebalanced :
      (v : A) (l r : Tree A) (h : ℕ)
      → IsAvl l
      → IsAvl r
      → height l ≡ height r + 2
      → (u : Tree A) × (left_heavy v l r h ≡ some u)
        × Rebalanced (height l) (height r) (inorder l ++ (v ∷ inorder r)) u
  left_heavy-Rebalanced v leaf r h al ar e = absurd (omega arith)
  left_heavy-Rebalanced v (node lv ll leaf lh) r h al ar e =
      (_, rw (zero-leb (height ll)), single_right v lv ll leaf r lh al ar e (omega arith))
  left_heavy-Rebalanced v (node lv ll (node mv ml mr mh) lh) r h al ar e =
      elim (Bool-cases (leb mh (height ll))) [
        | inl le ↦ (
          _,
          rw le,
          single_right v lv ll (node mv ml mr mh) r lh al ar e (leb→le mh (height ll) le),
        )
        | inr gt ↦ (_, rw gt, double_right v lv mv ll ml mr r mh lh al ar e (ground arith))
      ]

  right_heavy-Rebalanced :
      (v : A) (l r : Tree A) (h : ℕ)
      → IsAvl l
      → IsAvl r
      → height r ≡ height l + 2
      → (u : Tree A) × (right_heavy v l r h ≡ some u)
        × Rebalanced (height l) (height r) (inorder l ++ (v ∷ inorder r)) u
  right_heavy-Rebalanced v l leaf h al ar e = absurd (omega arith)
  right_heavy-Rebalanced v l (node rv leaf rr rh) h al ar e =
      (_, rw (zero-leb (height rr)), single_left v rv l leaf rr rh al ar e (omega arith))
  right_heavy-Rebalanced v l (node rv (node mv ml mr mh) rr rh) h al ar e =
      elim (Bool-cases (leb mh (height rr))) [
        | inl le ↦ (
          _,
          rw le,
          single_left v rv l (node mv ml mr mh) rr rh al ar e (leb→le mh (height rr) le),
        )
        | inr gt ↦ (_, rw gt, double_left v rv mv l ml mr rr mh rh al ar e (ground arith))
      ]

  -- At a node over balanced subtrees whose heights differ by two at most, `rebalance` meets no nil
  -- child, and gives a balanced tree of the same elements in the same order, as high as the higher
  -- subtree or one more; one more if the subtrees were in balance.
  pub rebalance-Rebalanced :
      (v : A) (l r : Tree A)
      → IsAvl l
      → IsAvl r
      → height l ≤ height r + 2
      → height r ≤ height l + 2
      → (u : Tree A) × (rebalance (mk v l r) ≡ some u)
        × Rebalanced (height l) (height r) (inorder l ++ (v ∷ inorder r)) u
  unfolding rebalance
  rebalance-Rebalanced v l r al ar p q = elim (Bool-cases (ltb (height r + 1) (height l))) [
    | inl left ↦ rw left (left_heavy-Rebalanced v l r _ al ar (ground arith))
    | inr no_left ↦ elim (Bool-cases (ltb (height l + 1) (height r))) [
      | inl right ↦ rw (no_left, right) (right_heavy-Rebalanced v l r _ al ar (ground arith))
      | inr no_right ↦
          rw (no_left, no_right)
            (
              mk v l r,
              refl,
              mk-Rebalanced v l r (mk-IsAvl v l r al ar (ground arith) (ground arith))
                  (omega heights) (omega heights) (omega heights),
            )
    ]
  ]
