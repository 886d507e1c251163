-- ===== src/Lf/SplitHashMap/Segments.antt =====
-- lf/splithashmap.go: `bucketPtr`, which finds a bucket's pointer in the segments that are made as
-- they are needed.
pub mod Slots
use lockfree.Base.{
  ℕ, ◌+◌, ◌/◌, ◌%◌, ◌^◌, Option, none, some, List, [], ◌∷◌, ltb, if◌then◌else◌, update,
}

-- The segments by number; addresses below `alloc` are allocated.
pub record Segments : Type 0 where
  pub segments : ℕ → Option ℕ
  pub alloc : ℕ

-- Where a goroutine stands in `bucketPtr(i)`, with the segment that it has made; once it has returned,
-- the pointer is a place in a segment.
pub data SegPc : Type 0 where
  seg_idle : SegPc
  seg_load : (i : ℕ) → SegPc
  seg_swap : (i made : ℕ) → SegPc
  seg_reload : (i : ℕ) → SegPc
  pointing : (i segment place : ℕ) → SegPc
  seg_nil : SegPc
  out_of_range : SegPc

abbrev pub seg_found : Segments → (i : ℕ) → Option ℕ → Segments × SegPc
seg_found m i none = (record m { alloc = m.alloc + 1 }, seg_swap i m.alloc)
seg_found m i (some s) = (m, pointing i s (i % 2 ^ 8))

abbrev pub seg_swapped : Segments → (i made : ℕ) → Option ℕ → Segments × SegPc
seg_swapped m i made none =
    (record m { segments = update m.segments (i / 2 ^ 8) (some made) }, pointing i made (i % 2 ^ 8))
seg_swapped m i made (some s) = (m, seg_reload i)

abbrev pub seg_reloaded : (i : ℕ) → Option ℕ → SegPc
seg_reloaded i none = seg_nil
seg_reloaded i (some s) = pointing i s (i % 2 ^ 8)

-- The next access; with no call under way the goroutine starts one for bucket `b`. A number of a
-- segment that the array does not have is an index out of range.
unfoldable pub seg_access : ℕ → Segments → SegPc → Segments × SegPc
seg_access b m seg_idle = (m, seg_load b)
seg_access b m (pointing i s place) = (m, seg_load b)
seg_access b m (seg_load i) =
    if ltb (i / 2 ^ 8) (2 ^ 8) then seg_found m i (m.segments (i / 2 ^ 8)) else (m, out_of_range)
seg_access b m (seg_swap i made) = seg_swapped m i made (m.segments (i / 2 ^ 8))
seg_access b m (seg_reload i) = (m, seg_reloaded i (m.segments (i / 2 ^ 8)))
seg_access b m p = (m, p)

pub record SegSystem : Type 0 where
  pub mem : Segments
  pub pc : ℕ → SegPc

abbrev pub seg_turn : SegSystem → ℕ → ℕ → SegSystem
seg_turn s j b =
    let (m, p) = seg_access b s.mem (s.pc j) in record { mem = m; pc = update s.pc j p }

-- Where each goroutine gets to, in the order of a schedule, and the system at its end.
unfoldable pub seg_run : SegSystem → List (ℕ × ℕ) → List SegPc × SegSystem
seg_run s [] = ([], s)
seg_run s ((j, b) ∷ ts) =
    let s' = seg_turn s j b in let (ps, s'') = seg_run s' ts in (s'.pc j ∷ ps, s'')

-- A table has no segments at first.
abbrev pub seg_at_rest : SegSystem
seg_at_rest = record { mem = record { segments = λ k. none; alloc = 0 }; pc = λ j. seg_idle }
