-- ===== src/Wf/Deque/Refine.antt =====
-- wf/deque.go: the wait-free deque behaves as one list from which operations push and pop at both
-- ends, one at a time.
use lockfree.Base.{ℕ, ◌≡◌, refl, Option, none, some, List, []}
use lockfree.Wf.Avl.{Tree, leaf}
use lockfree.Wf.Avl.Balance.{inorder, IsAvl}
use lockfree.Wf.DequeTree.Sequence.{push_front, push_back, pop_front, pop_back}
use lockfree.Wf.DequeTree.Refine.{
  tree_push_front-Grown, tree_push_back-Grown, tree_pop_front-Shrunk, tree_pop_back-Shrunk,
}
use lockfree.Wf.Universal.{Turn}
use lockfree.Wf.Universal.Linearizable.{at_rest}
use lockfree.Linear.Spec.{Abstract, LinRun, unused}
use lockfree.Wf.Universal.Spec.{Spec, abstract, history}
use lockfree.Wf.Universal.Refine.{IsSafe, universal_run-LinRun}
use lockfree.Wf.Deque.{
  DequeOp, dq_push_front, dq_push_back, dq_pop_front, dq_pop_back, deque_apply_op, deque_object,
  deque_run, DequeResult,
}

module _ {A : Type 0} where
  -- interfaces.go, `Deque`: the operations on the list of the elements from front to back.
  unfoldable pub list_apply_op : DequeOp A → List A → List A × Option A
  list_apply_op (dq_push_front x) xs = (push_front xs x, none)
  list_apply_op (dq_push_back x) xs = (push_back xs x, none)
  list_apply_op dq_pop_front xs = pop_front xs
  list_apply_op dq_pop_back xs = pop_back xs

  -- No operation has panicked; the tree is balanced and holds the elements in this order.
  abbrev pub Holds : Option (Tree A) → List A → Type 0
  Holds s xs = (t : Tree A) × (s ≡ some t) × IsAvl t × (inorder t ≡ xs)

  -- On a balanced tree every operation leaves a balanced tree of the elements that the deque's
  -- operation on their list leaves, with the same response, and does not panic.
  pub deque_apply_op-Holds :
      (op : DequeOp A) (s : Option (Tree A)) (xs : List A)
      → Holds s xs
      → Holds (deque_apply_op op s).0 (list_apply_op op xs).0
        × ((deque_apply_op op s).1 ≡ (list_apply_op op xs).1)
  unfolding deque_apply_op list_apply_op
  deque_apply_op-Holds (dq_push_front x) s xs (t, e, avl, in_order) =
      let (u, done, g) = tree_push_front-Grown t x avl in
      rw (e, ← in_order) ((u, done, g.avl, g.same), refl)
  deque_apply_op-Holds (dq_push_back x) s xs (t, e, avl, in_order) =
      let (u, done, g) = tree_push_back-Grown t x avl in
      rw (e, ← in_order) ((u, done, g.avl, g.same), refl)
  deque_apply_op-Holds dq_pop_front s xs (t, e, avl, in_order) =
      let (u, done, g) = tree_pop_front-Shrunk t avl in
      rw (e, ← in_order) (rw (done, deque_apply_op) ((u, refl, g.avl, g.same), refl))
  deque_apply_op-Holds dq_pop_back s xs (t, e, avl, in_order) =
      let (u, done, g) = tree_pop_back-Shrunk t avl in
      rw (e, ← in_order) (rw (done, deque_apply_op) ((u, refl, g.avl, g.same), refl))

module _ {A : Type 0} (zero_arg : A) where
  abbrev pub deque_spec : Spec (deque_object zero_arg)
  deque_spec = record {
    Abstract = List A;
    start = [];
    apply_op = list_apply_op;
    Relates = Holds;
    start-Relates = (leaf, refl, tt, refl);
    apply-Relates = deque_apply_op-Holds;
  }

  -- Under every schedule of the participants' accesses, the calls start and return as those of a list
  -- do, starting from the empty list, from which operations push and pop at both ends, in which each
  -- call takes effect at one moment between its start and its return. Every tree that is stored as a
  -- result is balanced and holds the elements of such a list, and nothing panics on a nil pointer.
  pub deque_run-LinRun :
      (n : ℕ) (ts : List (ℕ × Turn (deque_object zero_arg)))
      → (a : Abstract (abstract deque_spec)) × LinRun
          (abstract deque_spec)
          (unused (abstract deque_spec) [])
          (history deque_spec n (at_rest (deque_object zero_arg)) ts)
          a
        × ((i : ℕ)
            → IsSafe deque_spec ((deque_run zero_arg n (at_rest (deque_object zero_arg)) ts).pc i))
        × ((b : ℕ) (r : DequeResult zero_arg)
            → (deque_run zero_arg n (at_rest (deque_object zero_arg)) ts).mem.res b ≡ some r
            → (xs : List A) × Holds r.0 xs)
  deque_run-LinRun n ts = universal_run-LinRun deque_spec n ts
