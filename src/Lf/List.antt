-- ===== src/Lf/List.antt =====
-- lf/list.go: the ordered list of Harris and Michael, a shared access at a time.
pub mod Memory
pub mod Access
pub mod Order
pub mod Inv
pub mod Stable
pub mod Stays
pub mod Paths
pub mod Stores
pub mod Insert
pub mod Mark
pub mod Unlink
pub mod Sought
pub mod Reads
pub mod Search
pub mod Calls
pub mod Refine
mod Tests
use lockfree.Base.{
  ℕ, ◌+◌, ◌-◌, ◌%◌, ◌^◌, Option, none, some, Bool, true, false, not, ◌&&◌, ◌||◌, List, [], ◌∷◌,
  ◌++◌, ◌==◌, if◌then◌else◌, update,
}
use lockfree.Base.Less.{Less}
use lockfree.Linear.{Sequential, Event, tau, call, ret, Machine}
use lockfree.Lf.List.Memory.{Nodes, key_less, key_equal, store_next, same_ref, is_link}

-- The operations; `Contains(k)` is `Get(k)` without the value.
pub data ListOp (K V : Type 0) : Type 0 where
  set_op : K → V → ListOp K V
  get_op : K → ListOp K V
  del_op : K → ListOp K V

-- The key that `search` is given.
abbrev pub key_of : {K V : Type 0} → ListOp K V → K
key_of (set_op k v) = k
key_of (get_op k) = k
key_of (del_op k) = k

module _ {K : Type 0} (V : Type 0) (less : Less K) where
  -- What the operations do to the set of the keys that are present, and what they report of it.
  unfoldable pub keys_apply_op : ListOp K V → (K → Bool) → (K → Bool) × Bool
  keys_apply_op (set_op k v) keys = (λ j. if less j k || less k j then keys j else true, true)
  keys_apply_op (get_op k) keys = (keys, keys k)
  keys_apply_op (del_op k) keys = (λ j. if less j k || less k j then keys j else false, keys k)

  abbrev pub key_set : Sequential
  key_set = record { State = K → Bool; Op = ListOp K V; Response = Bool; apply_op = keys_apply_op }

-- Where a goroutine stands, with the locals that are live there. `op` is the call.
pub data Pc (K V : Type 0) : Type 0 where
  idle : Pc K V
  -- in `search`: at `retry`, about to load `curr.next`, and about to load `pred.next` and to swap it
  -- for the link to `succ`; `ver` tells whether the pair that was loaded is still there
  retry : (op : ListOp K V) → Pc K V
  searching : (op : ListOp K V) (pred curr : ℕ) → Pc K V
  unlinking : (op : ListOp K V) (pred curr succ : ℕ) → Pc K V
  unlink_swap : (op : ListOp K V) (pred curr succ ver : ℕ) → Pc K V
  -- in `Set`: about to store the value, to make the node, to load `pred.next`, to swap it
  set_value : (k : K) (v : V) (curr : ℕ) → Pc K V
  set_node : (k : K) (v : V) (pred curr : ℕ) → Pc K V
  set_link : (k : K) (v : V) (pred curr n : ℕ) → Pc K V
  set_swap : (k : K) (v : V) (pred curr n ver : ℕ) → Pc K V
  set_len : Pc K V
  -- in `Get`: about to load `head.next`, `curr.next`, the value
  get_first : (k : K) → Pc K V
  getting : (k : K) (curr : ℕ) → Pc K V
  get_value : (k : K) (curr : ℕ) → Pc K V
  -- in `Del`: about to load `curr.next`, to load it again and to mark it, to load the value, to load
  -- `pred.next` and to swap it
  del_next : (k : K) (pred curr : ℕ) → Pc K V
  del_mark : (k : K) (pred curr : ℕ) (succ : Option ℕ) → Pc K V
  del_swap : (k : K) (pred curr : ℕ) (succ : Option ℕ) (ver : ℕ) → Pc K V
  del_value : (pred curr : ℕ) (succ : Option ℕ) → Pc K V
  del_unlink : (pred curr : ℕ) (succ : Option ℕ) (v : V) → Pc K V
  del_unlink_swap : (pred curr : ℕ) (succ : Option ℕ) (ver : ℕ) (v : V) → Pc K V
  del_len : (v : V) → Pc K V
  -- about to return what it reports, with the value
  returning : Bool → Option V → Pc K V
  nil_dereference : Pc K V
