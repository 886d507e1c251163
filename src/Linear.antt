-- ===== src/Linear.antt =====
-- interfaces.go: what it means that a concurrent structure behaves as a sequential object whose calls
-- take effect one at a time. The structures of lf/ are machines over a shared memory.
pub mod Spec
pub mod Simulate
use lockfree.Base.{ℕ, List, [], ◌∷◌, update}

-- The sequential object.
pub record Sequential : Type 1 where
  pub State : Type 0
  pub Op : Type 0
  pub Response : Type 0
  pub apply_op : Op → State → State × Response

-- What an access shows to the callers: nothing, the start of a call, or its return.
pub data Event (o : Sequential) : Type 0 where
  tau : Event o
  call : o.Op → Event o
  ret : o.Response → Event o

-- The memory that goroutines share, where a goroutine stands, and its next access; with no call under
-- way it starts the call that it is given.
pub record Machine (o : Sequential) : Type 1 where
  pub Mem : Type 0
  pub Pc : Type 0
  pub access : ℕ → o.Op → Mem → Pc → Mem × Pc × Event o

module _ {o : Sequential} (mc : Machine o) where
  open mc use {Mem, Pc, access}

  pub record System : Type 0 where
    pub mem : Mem
    pub pc : ℕ → Pc

  unfoldable pub turn : System → ℕ → o.Op → System × Event o
  turn s i op =
      let (m, p, e) = access i op s.mem (s.pc i) in (record { mem = m; pc = update s.pc i p }, e)

  -- What a schedule shows, in its order, and the system at its end.
  unfoldable pub run : System → List (ℕ × o.Op) → List (ℕ × Event o) × System
  unfolding turn
  run s [] = ([], s)
  run s ((i, op) ∷ ts) =
      let (s', e) = turn s i op in let (es, s'') = run s' ts in ((i, e) ∷ es, s'')
