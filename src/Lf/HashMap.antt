-- ===== src/Lf/HashMap.antt =====
-- lf/hashmap.go: a fixed array of buckets, each a list of lf/list.go.
pub mod Buckets
pub mod Routes
pub mod Refine
mod Tests
use lockfree.Base.{
  ℕ, zero, suc, ◌+◌, ◌%◌, ◌^◌, Option, none, some, Bool, true, false, ltb, if◌then◌else◌, update,
}
use lockfree.Base.Less.{Less}
use lockfree.Linear.{Event, Machine}
use lockfree.Lf.List.{ListOp, key_of, key_set, Pc, idle}
use lockfree.Lf.List.Memory.{Nodes, new_list, len}
use lockfree.Lf.List.Access.{access}

-- `bucket(k)`; `hash` is the caller's.
abbrev pub bucket : {K : Type 0} → (K → ℕ) → ℕ → K → ℕ
bucket hash n k = hash k % n

-- `NewHashMap`; none where it panics. The buckets are given by index.
unfoldable pub new_hash_map : {K V : Type 0} → ℕ → K → V → Option (ℕ → Nodes K V)
new_hash_map num_buckets key val = if ltb num_buckets 1 then none else some (λ b. new_list key val)

-- `Len`, over the first `n` buckets.
unfoldable pub hash_len : {K V : Type 0} → ℕ → (ℕ → Nodes K V) → ℕ
hash_len zero buckets = 0
hash_len (suc b) buckets = (hash_len b buckets + len (buckets b)) % 2 ^ 64

-- A goroutine stands in the list of the bucket that it went to.
pub data HashPc (K V : Type 0) : Type 0 where
  in_bucket : ℕ → Pc K V → HashPc K V

module _ {K V : Type 0} (less : Less K) (hash : K → ℕ) (n : ℕ) where
  -- A call goes to the bucket of its key, and stays in it until it returns.
  abbrev pub target : ListOp K V → ℕ → Pc K V → ℕ
  target op b idle = bucket hash n (key_of op)
  target op b p = b

  -- The next access of a goroutine, in its bucket.
  unfoldable pub hash_access :
      ℕ
      → ListOp K V
      → (ℕ → Nodes K V)
      → HashPc K V
      → (ℕ → Nodes K V) × HashPc K V × Event (key_set V less)
  hash_access tid op buckets (in_bucket b p) =
      let c = target op b p in
      let (m, p', e) = access less tid op (buckets c) p in (update buckets c m, in_bucket c p', e)

  abbrev pub hash_machine : Machine (key_set V less)
  hash_machine = record { Mem = ℕ → Nodes K V; Pc = HashPc K V; access = hash_access }
