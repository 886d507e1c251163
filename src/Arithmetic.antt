-- ===== src/Arithmetic.antt =====
-- arithmetic.go: AddFloat64, a shared access at a time.
pub mod Result
pub mod Linearizable
pub mod Progress
mod Tests
use lockfree.Linear.{Sequential, Event, tau, call, ret, Machine}
use lockfree.Base.{ℕ, Option, none, some, List, [], ◌∷◌, ◌==◌, if◌then◌else◌, update}

-- What Go and its package math give for float64: the numbers with their sum, the zero value, and
-- `Float64bits` and `Float64frombits`.
pub record Floats : Type 1 where
  pub Float : Type 0
  pub zero_float : Float
  pub add : Float → Float → Float
  pub to_bits : Float → ℕ
  pub from_bits : ℕ → Float

module _ (fl : Floats) where
  open fl use {Float, zero_float, add, to_bits, from_bits}

  -- Where a goroutine stands in `AddFloat64(addr, delta)`; `new` is the named result.
  pub data Pc : Type 0 where
    idle : Pc
    adding : (delta : Float) → Pc
    loaded : (delta old : Float) → Pc
    returned : (new : Float) → Pc

  -- The next access to the word at `addr`, and what it added. With no call under way the goroutine
  -- starts one to add `d`. The function never assigns `new`.
  unfoldable pub access : Float → ℕ → Pc → ℕ × Pc × Option Float
  access d word idle = (word, adding d, none)
  access d word (returned new) = (word, adding d, none)
  access d word (adding delta) = (word, loaded delta (from_bits word), none)
  access d word (loaded delta old) =
      if word == to_bits old
      then (to_bits (add old delta), returned zero_float, some delta)
      else (word, adding delta, none)

  -- A number to which calls add, one at a time. As the function never assigns its result, each call
  -- answers with the zero value.
  unfoldable pub adder_apply_op : Float → Float → Float × Float
  adder_apply_op d x = (add x d, zero_float)

  abbrev pub adder : Sequential
  adder = record { State = Float; Op = Float; Response = Float; apply_op = adder_apply_op }

  -- `AddFloat64` with what it shows to the callers: its start, and its return.
  abbrev pub add_access : Float → ℕ → Pc → ℕ × Pc × Event adder
  add_access d word idle = let (w, p, added) = access d word idle in (w, p, call d)
  add_access d word (returned new) = (word, idle, ret new)
  add_access d word p = let (w, q, added) = access d word p in (w, q, tau)

  abbrev pub add_machine : Machine adder
  add_machine = record { Mem = ℕ; Pc = Pc; access = λ i d word p. add_access d word p }

  -- The goroutines over one word.
  pub record System : Type 0 where
    pub word : ℕ
    pub pc : ℕ → Pc

  unfoldable pub turn : System → ℕ → Float → System × Option Float
  turn s i d =
      let (w, p, added) = access d s.word (s.pc i) in
      (record { word = w; pc = update s.pc i p }, added)

  -- The additions that a schedule makes, in its order, and the system at its end.
  unfoldable pub run : System → List (ℕ × Float) → List (Option Float) × System
  unfolding turn access
  run s [] = ([], s)
  run s ((i, d) ∷ ts) =
      let (s', added) = turn s i d in let (rest, s'') = run s' ts in (added ∷ rest, s'')
