-- ===== src/Wf/Stack.antt =====
-- wf/stack.go: the wait-free stack, the universal construction over the persistent list of cells.
mod Tests
use lockfree.Base.{ℕ, Option, none, some, List, [], ◌∷◌}
use lockfree.Wf.Universal.{Object, Pc, Turn, System}
use lockfree.Wf.Universal.Access.{run}

-- `stackOp`, with the argument that the operation has.
pub data StackOp (A : Type 0) : Type 0 where
  stack_push : A → StackOp A
  stack_pop : StackOp A

module _ {A : Type 0} where
  -- The switch of `publish`, on the chain of `stackCell[T]`. A response `(val, true)` is `some val`,
  -- `(zero, false)` is `none`.
  unfoldable pub stack_apply_op : StackOp A → List A → List A × Option A
  stack_apply_op (stack_push x) top = (x ∷ top, none)
  stack_apply_op stack_pop [] = ([], none)
  stack_apply_op stack_pop (val ∷ next) = (next, some val)

-- `zero_arg` is the zero value of `A`, which the sentinel has as its argument.
abbrev pub stack_object : {A : Type 0} → A → Object
stack_object {A} zero_arg = record {
  State = List A;
  Op = StackOp A;
  Response = Option A;
  initial = [];
  apply_op = stack_apply_op;
  zero_op = stack_push zero_arg;
  zero_response = none;
}

abbrev pub stack_run :
    {A : Type 0} (zero_arg : A)
    → ℕ
    → System (stack_object zero_arg)
    → List (ℕ × Turn (stack_object zero_arg))
    → System (stack_object zero_arg)
stack_run zero_arg = run (stack_object zero_arg)
