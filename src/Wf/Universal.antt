-- ===== src/Wf/Universal.antt =====
-- wf/stack.go, and the same code in wf/deque.go and wf/map.go: Herlihy's universal construction over
-- a sequential object, a shared access at a time.
pub mod Access
pub mod History
pub mod Stable
pub mod Stores
pub mod Consensus
pub mod Keep
pub mod Linking
pub mod Linearizable
pub mod Calls
pub mod Results
pub mod Spec
pub mod Kinds
pub mod Refine
use lockfree.Base.{ℕ, Option, none}

-- The sequential object: its states, its operations with their arguments, its responses.
pub record Object : Type 1 where
  pub State : Type 0
  pub Op : Type 0
  pub Response : Type 0
  pub initial : State
  pub apply_op : Op → State → State × Response
  -- The zero values that the sentinel's fields have.
  pub zero_op : Op
  pub zero_response : Response

module _ (o : Object) where
  open o use {State, Op, Response}

  -- `stackResult[T]`: the state after an operation, and its response.
  abbrev pub Result : Type 0
  Result = State × Response

  -- The fields of the nodes (`stackNode[T]`), by address, and of the structure (`Stack[T]`).
  -- Addresses below `alloc` are allocated; the sentinel is at 0. `n` is a parameter of the accesses.
  pub record Mem : Type 0 where
    pub op : ℕ → Op
    pub next : ℕ → Option ℕ
    pub res : ℕ → Option Result
    pub seq : ℕ → ℕ
    pub alloc : ℕ
    pub anchor : ℕ
    pub head : ℕ → Option ℕ
    pub announce : ℕ → Option ℕ
    pub cursor : ℕ

  -- Where a participant stands, with the locals that are live there. `mine` is the node of the
  -- operation that it applies.
  pub data Pc : Type 0 where
    unregistered : Pc
    -- in `Handle`: has a slot, has loaded the frontier, has stored it in `head`
    got_slot : Pc
    got_frontier : (frontier : ℕ) → Pc
    stored_head : (frontier : ℕ) → Pc
    -- no call is under way
    idle : Pc
    -- in `maxFrontier`
    announced : (mine : ℕ) → Pc
    loaded_anchor : (mine best : ℕ) → Pc
    scanning : (mine best best_seq i : ℕ) → Pc
    loaded_head : (mine best best_seq i nd : ℕ) → Pc
    -- in the loop of `apply`
    looping : (mine : ℕ) → Pc
    pending : (mine : ℕ) → Pc
    loaded_before : (mine before : ℕ) → Pc
    chosen_turn : (mine before help_idx : ℕ) → Pc
    loaded_cand : (mine before cand : ℕ) → Pc
    preferring : (mine before prefer : ℕ) → Pc
    agreed : (mine before : ℕ) → Pc
    loaded_after : (mine before after : ℕ) → Pc
    -- in `publish`
    publishing : (mine before after : ℕ) → Pc
    computed : (mine before after : ℕ) (br : Result) → Pc
    stored_res : (mine before after : ℕ) → Pc
    loaded_seq : (mine before after s : ℕ) → Pc
    moving : (mine after : ℕ) → Pc
    -- behind the loop, and in `advanceAnchor`
    linked : (mine : ℕ) → Pc
    loaded_res : (mine : ℕ) (r : Result) → Pc
    advancing : (mine : ℕ) (r : Result) → Pc
    loaded_cur : (mine : ℕ) (r : Result) (cur : ℕ) → Pc
    swinging : (mine : ℕ) (r : Result) (cur : ℕ) → Pc
    -- `apply` has returned `r`
    returned : (mine : ℕ) (r : Result) → Pc
    -- the two ways to panic
    too_many_handles : Pc
    nil_dereference : Pc

  pub data Turn : Type 0 where
    registers : Turn
    starts : Op → Turn
    scans : Turn
    links : Turn
    publishes : Turn
    finishes : Turn

  pub record System : Type 0 where
    pub mem : Mem
    pub pc : ℕ → Pc
