-- ===== src/Lf/Stack.antt =====
-- lf/stack.go and lf/node.go: Treiber's stack, a shared access at a time.
pub mod Lifo
pub mod Inv
pub mod Keep
pub mod Refine
pub mod Progress
pub mod Linearizable
mod Tests
use lockfree.Base.{
  ℕ, ◌+◌, ◌-◌, ◌%◌, ◌^◌, Option, none, some, Bool, true, false, List, [], ◌∷◌, ◌==◌, if◌then◌else◌,
  update,
}
use lockfree.Linear.{Sequential}
use lockfree.Linear as Linear
use lockfree.Lf.Stack.Lifo.{Event, tau, pushed, took, found_empty}

-- `Stack[T]`, with the fields of its nodes (`directItem[T]`) by address. Addresses below `alloc` are
-- allocated.
pub record Stack {ℓ} (A : Type ℓ) : Type ℓ where
  pub top : Option ℕ
  pub len : ℕ
  pub next : ℕ → Option ℕ
  pub val : ℕ → A
  pub alloc : ℕ

pub data Call {ℓ} (A : Type ℓ) : Type ℓ where
  push_call : A → Call A
  pop_call : Call A

-- Where a goroutine stands, with the locals that are live there.
pub data Pc {ℓ} (A : Type ℓ) : Type ℓ where
  -- no call is under way; the last one has returned this
  idle : Option A → Pc A
  pushing : (item : ℕ) → Pc A
  push_loaded : (item : ℕ) (top : Option ℕ) → Pc A
  push_stored : (item : ℕ) (top : Option ℕ) → Pc A
  push_done : Pc A
  popping : Pc A
  -- has found the stack empty
  pop_empty : Pc A
  pop_loaded : (top : ℕ) → Pc A
  pop_next : (top : ℕ) (next : Option ℕ) → Pc A
  pop_done : A → Pc A

-- `s.top.CompareAndSwap(old, new)` compares addresses.
abbrev pub same_pointer : Option ℕ → Option ℕ → Bool
same_pointer none none = true
same_pointer none (some b) = false
same_pointer (some a) none = false
same_pointer (some a) (some b) = a == b

module _ {ℓ} {A : Type ℓ} where
  -- `Pop` behind the load of `top`.
  abbrev pub look : Stack A → Option ℕ → Stack A × Pc A × Event A
  look s none = (s, pop_empty, found_empty)
  look s (some a) = (s, pop_loaded a, tau)

  -- The next access of a goroutine; from `idle` it makes the call. `v` of a node is set before the
  -- node is linked and never again, so `Pop` may read it with the compare-and-swap.
  unfoldable pub access : Call A → Stack A → Pc A → Stack A × Pc A × Event A
  access (push_call v) s (idle r) = (
    record s {
      val = update s.val s.alloc v;
      next = update s.next s.alloc none;
      alloc = s.alloc + 1;
    },
    pushing s.alloc,
    tau,
  )
  access pop_call s (idle r) = (s, popping, tau)
  access c s (pushing item) = (s, push_loaded item s.top, tau)
  access c s (push_loaded item top) =
      (record s { next = update s.next item top }, push_stored item top, tau)
  access c s (push_stored item top) =
      if same_pointer s.top top
      then (record s { top = some item }, push_done, pushed (s.val item))
      else (s, pushing item, tau)
  access c s push_done = (record s { len = (s.len + 1) % 2 ^ 64 }, idle none, tau)
  access c s popping = look s s.top
  access c s pop_empty = (s, idle none, tau)
  access c s (pop_loaded a) = (s, pop_next a (s.next a), tau)
  access c s (pop_next a nx) =
      if same_pointer s.top (some a)
      then (record s { top = nx }, pop_done (s.val a), took (s.val a))
      else (s, popping, tau)
  access c s (pop_done v) = (record s { len = (s.len + (2 ^ 64 - 1)) % 2 ^ 64 }, idle (some v), tau)

  -- `Length`.
  unfoldable pub length_of : Stack A → ℕ
  length_of s = s.len

  -- `NewStack`; `blank` is the zero value of `T`.
  unfoldable pub new_stack : A → Stack A
  new_stack blank = record { top = none; len = 0; next = λ a. none; val = λ a. blank; alloc = 0 }

-- interfaces.go, `Stack`: the abstract stack, top first. `Pop` reports its value, or nothing when the
-- stack is empty.
unfoldable pub lifo_apply_op {ℓ} : {A : Type ℓ} → Call A → List A → List A × Option A
lifo_apply_op (push_call v) xs = (v ∷ xs, none)
lifo_apply_op pop_call [] = ([], none)
lifo_apply_op pop_call (x ∷ xs) = (xs, some x)

abbrev pub lifo : Type 0 → Sequential
lifo A = record { State = List A; Op = Call A; Response = Option A; apply_op = lifo_apply_op }

-- What an access from `p` to `q` shows to the callers: the start of the call `c`, or the return of one
-- with what it returns.
abbrev pub shown : {A : Type 0} → Call A → (p q : Pc A) → Linear.Event (lifo A)
shown c (idle r) q = Linear.call c
shown c p (idle r) = Linear.ret r
shown c p q = Linear.tau

abbrev pub stack_machine : (A : Type 0) → Linear.Machine (lifo A)
stack_machine A = record {
  Mem = Stack A;
  Pc = Pc A;
  access = λ i c s p. let (m, q, e) = access c s p in (m, q, shown c p q);
}

-- The goroutines over one stack.
pub record System {ℓ} (A : Type ℓ) : Type ℓ where
  pub stack : Stack A
  pub pc : ℕ → Pc A

module _ {ℓ} {A : Type ℓ} where
  unfoldable pub turn : System A → ℕ → Call A → System A × Event A
  turn s i c =
      let (m, q, e) = access c s.stack (s.pc i) in (record { stack = m; pc = update s.pc i q }, e)

  -- What the accesses of a schedule do, in its order.
  unfoldable pub run : System A → List (ℕ × Call A) → List (Event A) × System A
  unfolding turn
  run s [] = ([], s)
  run s ((i, c) ∷ ts) = let (s', e) = turn s i c in let (es, s'') = run s' ts in (e ∷ es, s'')
