-- ===== src/Lf/SplitHashMap/Inv.antt =====
-- lf/splithashmap.go: what holds between any two accesses.
use lockfree.Base.{ℕ, ◌%◌, ◌^◌, ◌<◌, ◌≡◌, ◌≢◌, ◌⊎◌, Option, some, Bool, true, false, List, [], ◌∷◌}
use lockfree.Base.Less.{Less}
use lockfree.Linear.Spec.{Status, out, called, seen, done, Waits, Answers}
use lockfree.Lf.List.{ListOp, set_op, get_op, del_op, key_of, key_set}
use lockfree.Lf.List.Memory.{key_less}
use lockfree.Lf.List.Order.{IsNormal}
use lockfree.Lf.List.Inv.{Past, Live, Inv, Sought, IsLess, IsEqual, IsBehind, IsGone, VerOk, Keeps}
use lockfree.Lf.SplitHashMap.{so_regular, so_dummy}
use lockfree.Lf.SplitHashMap.Size.{IsSize}
use lockfree.Lf.SplitHashMap.Memory.{SoKey, Split, regular, sentinel, so_less}
use lockfree.Lf.SplitHashMap.Keys.{IsWell, elements}
use lockfree.Lf.SplitHashMap.Access.{
  Goal, set_goal, get_goal, del_goal, goal_key, Job, set_job, del_job, init_job, job_target, Pc,
  idle, bucket_size, bucket_load, init_load, init_make, init_store, init_reload, retry, searching,
  unlinking, unlink_swap, link_next, link, link_swap, set_value, set_count, set_size, set_grow,
  getting, get_value, del_next, del_mark, del_swap, del_value, del_unlink, del_unlink_swap, del_len,
  returning, nil_dereference,
}
use lockfree.Lf.SplitHashMap.Access.Search.{job_node}

-- The nodes that were ever linked with their makers, and the keys of the live nodes.
pub record Known (K : Type 0) : Type 0 where
  pub past : Past
  pub keys : SoKey K → Bool

module _ {K V : Type 0} (less : Less K) (hash : K → ℕ) (blank : K) (m : Split K V)
    (g : Known K) where
  -- The head, or a sentinel: it is never deleted.
  abbrev pub IsRoot : ℕ → Type 0
  IsRoot a =
      Live (so_less less) m.nodes g.past a
      × ((a ≡ 0) ⊎ (IsNormal (so_less less) m.nodes a × ((m.nodes.key a).so_key % 2 ≡ 0)))

  abbrev pub IsSentinel : ℕ → ℕ → Type 0
  IsSentinel n b = IsRoot n × ((m.nodes.key n).so_key ≡ so_dummy b)

  -- The nodes are a list as in lf/list.go, ordered by their split-order keys; the keys of its elements
  -- are those present, and a bucket's pointer is nil or leads to its sentinel.
  pub record SplitInv (present : K → Bool) : Type 0 where
    pub list : Inv (so_less less) m.nodes g.past g.keys
    pub are_elements : present ≡ elements hash g.keys
    pub well :
        (a : ℕ)
        → g.past.linked a ≡ true
        → IsNormal (so_less less) m.nodes a
        → IsWell blank (m.nodes.key a)
    pub head_key : m.nodes.key 0 ≡ sentinel blank 0
    pub head_bucket : m.buckets 0 ≡ some 0
    pub sentinels : (b n : ℕ) → m.buckets b ≡ some n → IsSentinel n b
    pub size_ok : IsSize m.size

  -- A place from where `x` can be searched.
  abbrev pub StartOk : ℕ → SoKey K → Type 0
  StartOk a x = IsRoot a × (key_less (so_less less) m.nodes a x ≡ true)

  -- A node that goroutine `i` has made and not linked.
  abbrev pub Own : ℕ → ℕ → SoKey K → Type 0
  Own i n x =
      (n < m.nodes.alloc)
      × (g.past.linked n ≡ false)
      × (g.past.owner n ≡ i)
      × (m.nodes.marked n ≡ false)
      × (m.nodes.key n ≡ x)

  abbrev pub GoalOk : ℕ → Goal K V → Status (key_set V less) → Type 0
  GoalOk i (set_goal k v n) t = (t ≡ called (set_op k v)) × Own i n (regular hash k)
  GoalOk i (get_goal k) t = Waits (key_set V less) t (get_op k)
  GoalOk i (del_goal k) t = Waits (key_set V less) t (del_op k)

  -- The sentinels of the buckets of `initBucket` and its pending calls, and the call's key, are in order.
  abbrev pub PathOk : Goal K V → ℕ → List ℕ → Type 0
  PathOk goal b [] = so_dummy b < so_regular (hash (goal_key goal) % 2 ^ 32)
  PathOk goal b (c ∷ cs) = (so_dummy b < so_dummy c) × (0 < c) × (c < 2 ^ 16) × PathOk goal c cs

  -- The node of `Set` is not the new sentinel.
  abbrev pub Apart : Goal K V → ℕ → Type 0
  Apart (set_goal k v n) d = n ≢ d
  Apart goal d = Unit

  abbrev pub JobOk : ℕ → Job K V → Status (key_set V less) → Type 0
  JobOk i (set_job k v n start) t =
      (t ≡ called (set_op k v)) × Own i n (regular hash k) × StartOk start (regular hash k)
  JobOk i (del_job k start) t = StartOk start (regular hash k)
  JobOk i (init_job goal d b bs start) t =
      GoalOk i goal t
      × Own i d (sentinel blank b)
      × Apart goal d
      × (b < 2 ^ 16)
      × PathOk goal b bs
      × StartOk start (sentinel blank b)

  abbrev pub Tracks : Status (key_set V less) → ListOp K V → ℕ → Type 0
  Tracks t op a =
      (t ≡ seen op false)
      ⊎ (Waits (key_set V less) t op
          × Sought (so_less less) m.nodes g.past (regular hash (key_of op)) a)

  -- `Del` waits; what the search for it at `a` has learnt.
  abbrev pub RetryOk : Job K V → Status (key_set V less) → Type 0
  RetryOk (del_job k start) t = Waits (key_set V less) t (del_op k)
  RetryOk j t = Unit

  abbrev pub SeekOk : Job K V → Status (key_set V less) → ℕ → Type 0
  SeekOk (del_job k start) t a = Tracks t (del_op k) a
  SeekOk j t a = Unit

  abbrev pub IsInsert : Job K V → Type 0
  IsInsert (del_job k start) = ⊥
  IsInsert j = Unit

  abbrev pub Linked : ℕ → Type 0
  Linked a = g.past.linked a ≡ true

  abbrev pub LessOk : ℕ → SoKey K → Type 0
  LessOk a x = IsLess (so_less less) m.nodes g.past a x

  abbrev pub GoneOk : ℕ → Option ℕ → Type 0
  GoneOk a succ = IsGone (so_less less) m.nodes g.past a succ

  abbrev pub SwapOk : ℕ → Option ℕ → ℕ → Type 0
  SwapOk a ref ver = VerOk (so_less less) m.nodes g.past a ref ver

  -- The place between `pred` and `curr` where the node of a job belongs.
  abbrev pub PlaceOk : ℕ → Job K V → Status (key_set V less) → ℕ → ℕ → Type 0
  PlaceOk i j t pred curr =
      JobOk i j t
      × IsInsert j
      × LessOk pred (job_target less hash blank j)
      × IsBehind (so_less less) m.nodes g.past curr (job_target less hash blank j)

  abbrev pub DelOk : K → ℕ → Status (key_set V less) → ℕ → ℕ → Type 0
  DelOk k start t pred curr =
      Waits (key_set V less) t (del_op k)
      × StartOk start (regular hash k)
      × LessOk pred (regular hash k)
      × IsEqual (so_less less) m.nodes g.past curr (regular hash k)

  -- What holds of goroutine `i` at its place, with its call at `t`.
  abbrev pub PcOk : ℕ → Pc K V → Status (key_set V less) → Type 0
  PcOk i idle t = t ≡ out
  PcOk i (bucket_size goal) t = GoalOk i goal t
  PcOk i (bucket_load goal b) t = GoalOk i goal t × (b < 2 ^ 16) × PathOk goal b []
  PcOk i (init_load goal b bs) t = GoalOk i goal t × (b < 2 ^ 16) × PathOk goal b bs
  PcOk i (init_make goal start b bs) t =
      GoalOk i goal t × (b < 2 ^ 16) × PathOk goal b bs × StartOk start (sentinel blank b)
  PcOk i (init_store goal n b bs) t =
      GoalOk i goal t × (b < 2 ^ 16) × PathOk goal b bs × IsSentinel n b
  PcOk i (init_reload goal b bs) t =
      GoalOk i goal t × (b < 2 ^ 16) × PathOk goal b bs × ((n : ℕ) × (m.buckets b ≡ some n))
  PcOk i (retry j) t = JobOk i j t × RetryOk j t
  PcOk i (searching j pred curr) t =
      JobOk i j t
      × SeekOk j t curr
      × LessOk pred (job_target less hash blank j)
      × Linked curr
      × IsNormal (so_less less) m.nodes curr
  PcOk i (unlinking j pred curr succ) t =
      JobOk i j t
      × SeekOk j t succ
      × LessOk pred (job_target less hash blank j)
      × GoneOk curr (some succ)
      × Linked succ
  PcOk i (unlink_swap j pred curr succ ver) t =
      JobOk i j t
      × SeekOk j t succ
      × LessOk pred (job_target less hash blank j)
      × GoneOk curr (some succ)
      × Linked succ
      × SwapOk pred (some curr) ver
  PcOk i (link_next j pred curr) t = PlaceOk i j t pred curr
  PcOk i (link j pred curr) t =
      PlaceOk i j t pred curr × (m.nodes.next (job_node less hash blank j) ≡ some curr)
  PcOk i (link_swap j pred curr ver) t =
      PlaceOk i j t pred curr
      × (m.nodes.next (job_node less hash blank j) ≡ some curr)
      × SwapOk pred (some curr) ver
  PcOk i (set_value k v curr) t = t ≡ seen (set_op k v) true
  PcOk i set_count t = t ≡ done true
  PcOk i (set_size c) t = t ≡ done true
  PcOk i (set_grow c csize) t = t ≡ done true
  PcOk i (getting k curr) t = Tracks t (get_op k) curr × Linked curr × (curr ≢ 1)
  PcOk i (get_value k curr) t = t ≡ seen (get_op k) true
  PcOk i (del_next k start pred curr) t = DelOk k start t pred curr
  PcOk i (del_mark k start pred curr succ) t = DelOk k start t pred curr
  PcOk i (del_swap k start pred curr succ ver) t = DelOk k start t pred curr × SwapOk curr succ ver
  PcOk i (del_value pred curr succ) t = (t ≡ done true) × Linked pred × GoneOk curr succ
  PcOk i (del_unlink pred curr succ v) t = (t ≡ done true) × Linked pred × GoneOk curr succ
  PcOk i (del_unlink_swap pred curr succ ver v) t =
      (t ≡ done true) × Linked pred × GoneOk curr succ × SwapOk pred (some curr) ver
  PcOk i (del_len v) t = t ≡ done true
  PcOk i (returning b v) t = Answers (key_set V less) t b
  PcOk i nil_dereference t = ⊥

  -- What an access of goroutine `i` leaves, when it leaves the memory `m'`.
  pub record Leaves (i : ℕ) (m' : Split K V) (g' : Known K) : Type 0 where
    pub keeps : Keeps (so_less less) m.nodes g.past i m'.nodes g'.past g'.keys
    pub even_stays : (x : SoKey K) → x.so_key % 2 ≡ 0 → g.keys x ≡ true → g'.keys x ≡ true
    pub bucket_stays : (b n : ℕ) → m.buckets b ≡ some n → m'.buckets b ≡ some n
