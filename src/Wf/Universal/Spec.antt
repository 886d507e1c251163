-- ===== src/Wf/Universal/Spec.antt =====
-- wf/stack.go, wf/deque.go, wf/map.go: a sequential object that stands for an abstract one, and what
-- the callers see of a schedule: the calls that start, with their arguments, and their responses.
use lockfree.Base.{ℕ, ◌≡◌, List, [], ◌∷◌}
use lockfree.Linear.{Sequential, Event, tau, call, ret}
use lockfree.Wf.Universal.{Object, Pc, Turn, System, starts, idle, returned}
use lockfree.Wf.Universal.Access.{step}

-- An abstract object with the operations of `o`, and the abstract states that a state stands for.
pub record Spec (o : Object) : Type 1 where
  pub Abstract : Type 0
  pub start : Abstract
  pub apply_op : o.Op → Abstract → Abstract × o.Response
  pub Relates : o.State → Abstract → Type 0
  pub start-Relates : Relates o.initial start
  pub apply-Relates :
      (op : o.Op) (s : o.State) (a : Abstract)
      → Relates s a
      → Relates (o.apply_op op s).0 (apply_op op a).0 × ((o.apply_op op s).1 ≡ (apply_op op a).1)

-- The abstract object alone.
abbrev pub abstract : {o : Object} → Spec o → Sequential
abstract {o} sp = record {
  State = sp.Abstract;
  Op = o.Op;
  Response = o.Response;
  apply_op = sp.apply_op;
}

module _ {o : Object} (sp : Spec o) where
  -- What a turn from `p` to `p'` shows.
  abbrev pub event : Turn o → (p p' : Pc o) → Event (abstract sp)
  event (starts op) idle p' = call op
  event (starts op) (returned mine r) p' = call op
  event t (returned mine r) p' = tau
  event t p (returned mine r) = ret r.1
  event t p p' = tau

  -- What a schedule shows, in its order.
  unfoldable pub history : ℕ → System o → List (ℕ × Turn o) → List (ℕ × Event (abstract sp))
  history n s [] = []
  history n s ((i, t) ∷ ts) =
      let s' = step o n s i t in (i, event t (s.pc i) (s'.pc i)) ∷ history n s' ts
