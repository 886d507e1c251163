-- ===== src/Lf/SplitHashMap.antt =====
-- lf/splithashmap.go: the split-order keys and the buckets.
pub mod Order
pub mod Sentinels
pub mod Size
pub mod Memory
pub mod Keys
pub mod Access
pub mod Inv
pub mod Reads
pub mod Changes
pub mod Stays
pub mod Jobs
pub mod Others
pub mod Stores
pub mod Links
pub mod Search
pub mod Steps
pub mod Inserts
pub mod Accesses
pub mod Buckets
pub mod Calls
pub mod Gets
pub mod Deletes
pub mod Refine
pub mod Segments
mod Tests
use lockfree.Base.{
  ℕ, zero, suc, ◌+◌, ◌*◌, ◌/◌, ◌%◌, ◌-◌, ◌^◌, Option, none, some, Bool, true, false, ltb, ◌==◌,
  if◌then◌else◌, ◌&&◌,
}

-- The lowest `w` bits of `x` in the opposite order; 32 for `bits.Reverse32`.
unfoldable pub reverse_bits : ℕ → ℕ → ℕ
reverse_bits zero x = 0
reverse_bits (suc w) x = x % 2 * 2 ^ w + reverse_bits w (x / 2)

-- `bits.Len64`, of an `x` of at most `w` bits.
unfoldable pub len_bits : ℕ → ℕ → ℕ
len_bits zero x = 0
len_bits (suc w) x = if x == 0 then 0 else len_bits w (x / 2) + 1

-- `h | 0x80000000` of a uint32.
abbrev pub set_high : ℕ → ℕ
set_high h = if ltb h (2 ^ 31) then h + 2 ^ 31 else h

unfoldable pub so_regular : ℕ → ℕ
so_regular h = reverse_bits 32 (set_high h)

unfoldable pub so_dummy : ℕ → ℕ
so_dummy b = reverse_bits 32 (b % 2 ^ 32)

-- The highest bit is set, so that to clear it is to subtract it; none where the shift is by -1.
unfoldable pub parent_bucket : ℕ → Option ℕ
parent_bucket b = if b == 0 then none else some (b - 2 ^ (len_bits 64 b - 1))

-- The number of the bucket that `bucket` looks in.
abbrev pub bucket_index : ℕ → ℕ → ℕ
bucket_index hash size = hash % size

-- `size` when a `Set` that counts `c` elements, and has loaded `csize` buckets, is done with it.
unfoldable pub grow : (c csize size : ℕ) → ℕ
grow c csize size =
    if ltb (csize * 4) c && ltb csize (2 ^ 16)
    then (if size == csize then csize * 2 else size)
    else size
