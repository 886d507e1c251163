-- ===== src/Wf/Deque.antt =====
-- wf/deque.go: the wait-free deque, the universal construction over the persistent tree.
pub mod Refine
pub mod Depth
mod Tests
use lockfree.Base.{ℕ, Option, none, some, List, ◌+◌}
use lockfree.Wf.Avl.{Tree, leaf}
use lockfree.Wf.DequeTree.{tree_push_front, tree_push_back, tree_pop_front, tree_pop_back}
use lockfree.Wf.Universal.{Object, Mem, Result, Pc, Turn, System}
use lockfree.Wf.Universal.Access.{new, register, start, scan, link, publish, finish, access, run}

-- `dequeOp`, with the argument that the operation has.
pub data DequeOp (A : Type 0) : Type 0 where
  dq_push_front : A → DequeOp A
  dq_push_back : A → DequeOp A
  dq_pop_front : DequeOp A
  dq_pop_back : DequeOp A

module _ {A : Type 0} where
  -- The switch of `publish`. The state is `none` behind an operation that panics, and the response is
  -- `none` for `(zero, false)`.
  unfoldable pub deque_apply_op : DequeOp A → Option (Tree A) → Option (Tree A) × Option A
  deque_apply_op op none = (none, none)
  deque_apply_op (dq_push_front x) (some t) = (tree_push_front t x, none)
  deque_apply_op (dq_push_back x) (some t) = (tree_push_back t x, none)
  deque_apply_op dq_pop_front (some t) = elim (tree_pop_front t) [
    | none ↦ (none, none)
    | some (root, v) ↦ (some root, v)
  ]
  deque_apply_op dq_pop_back (some t) = elim (tree_pop_back t) [
    | none ↦ (none, none)
    | some (root, v) ↦ (some root, v)
  ]

-- `zero_arg` is the zero value of `A`, which the sentinel has as its argument.
module _ {A : Type 0} (zero_arg : A) where
  abbrev pub deque_object : Object
  deque_object = record {
    State = Option (Tree A);
    Op = DequeOp A;
    Response = Option A;
    initial = some leaf;
    apply_op = deque_apply_op;
    zero_op = dq_push_front zero_arg;
    zero_response = none;
  }

  -- The construction is the stack's, with the deque's nodes.
  abbrev pub DequeResult : Type 0
  DequeResult = Result deque_object

  -- The nodes and the structure.
  abbrev pub DequeMem : Type 0
  DequeMem = Mem deque_object

  abbrev pub new_deque : Mem deque_object
  new_deque = new deque_object

  module _ (n tid : ℕ) (m : Mem deque_object) where
    abbrev pub deque_handle : Pc deque_object → Mem deque_object × Pc deque_object
    deque_handle = register deque_object n tid m

    -- `PushFront`, `PushBack`, `PopFront` and `PopBack` each start `apply` with their operation; the
    -- response is the second part of the result that it returns.
    abbrev pub deque_start : DequeOp A → Mem deque_object × Pc deque_object
    deque_start op = start deque_object n tid op m

    abbrev pub deque_max_frontier : Pc deque_object → Mem deque_object × Pc deque_object
    deque_max_frontier = scan deque_object n tid m

    abbrev pub deque_link : Pc deque_object → Mem deque_object × Pc deque_object
    deque_link = link deque_object n tid m

    abbrev pub deque_publish : Pc deque_object → Mem deque_object × Pc deque_object
    deque_publish = publish deque_object n tid m

    abbrev pub deque_finish : Pc deque_object → Mem deque_object × Pc deque_object
    deque_finish = finish deque_object n tid m

    -- The whole of `apply`.
    abbrev pub deque_access :
        Turn deque_object → Pc deque_object → Mem deque_object × Pc deque_object
    deque_access t p = access deque_object n tid t m p

  abbrev pub deque_run :
      ℕ → System deque_object → List (ℕ × Turn deque_object) → System deque_object
  deque_run = run deque_object
