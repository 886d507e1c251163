-- ===== src/Lf/SplitHashMap/Access.antt =====
-- lf/splithashmap.go: `Set`, `Get`, `Del`, `bucket`, `initBucket` and `listInsert` as sequences of
-- atomic accesses.
pub mod Search
pub mod Calls
use lockfree.Base.{
  ℕ, ◌+◌, ◌%◌, ◌^◌, Option, none, some, Bool, true, false, List, [], ◌∷◌, ◌==◌, if◌then◌else◌,
  update,
}
use lockfree.Base.Less.{Less}
use lockfree.Linear.{Event, tau, call, ret}
use lockfree.Lf.List.{ListOp, set_op, get_op, del_op, key_of, key_set}
use lockfree.Lf.List.Memory.{Nodes}
use lockfree.Lf.SplitHashMap.{parent_bucket, bucket_index}
use lockfree.Lf.SplitHashMap.Memory.{Split, SoKey, regular, sentinel}

-- What a call is about to do once it has the sentinel of its bucket; `n` is the node that `Set` made.
pub data Goal (K V : Type 0) : Type 0 where
  set_goal : (k : K) (v : V) (n : ℕ) → Goal K V
  get_goal : (k : K) → Goal K V
  del_goal : (k : K) → Goal K V

abbrev pub goal_key : {K V : Type 0} → Goal K V → K
goal_key (set_goal k v n) = k
goal_key (get_goal k) = k
goal_key (del_goal k) = k

-- What `search` is called for, from the node `start`: by `Set` or `Del`, or by `initBucket` to insert
-- the sentinel `d` of bucket `b`. Of `initBucket`, `bs` are the buckets of its pending calls.
pub data Job (K V : Type 0) : Type 0 where
  set_job : (k : K) (v : V) (n start : ℕ) → Job K V
  del_job : (k : K) (start : ℕ) → Job K V
  init_job : (g : Goal K V) (d b : ℕ) (bs : List ℕ) (start : ℕ) → Job K V

-- Where a goroutine stands, with the locals that are live there.
pub data Pc (K V : Type 0) : Type 0 where
  idle : Pc K V
  -- in `bucket`: about to load `size`, and the pointer of the bucket
  bucket_size : (g : Goal K V) → Pc K V
  bucket_load : (g : Goal K V) (b : ℕ) → Pc K V
  -- in `initBucket`: about to load the pointer, to make the sentinel, to store the pointer, to load it
  init_load : (g : Goal K V) (b : ℕ) (bs : List ℕ) → Pc K V
  init_make : (g : Goal K V) (start b : ℕ) (bs : List ℕ) → Pc K V
  init_store : (g : Goal K V) (got b : ℕ) (bs : List ℕ) → Pc K V
  init_reload : (g : Goal K V) (b : ℕ) (bs : List ℕ) → Pc K V
  -- in `search`: at `retry`, about to load `curr.next`, to load `pred.next` and to swap it
  retry : (j : Job K V) → Pc K V
  searching : (j : Job K V) (pred curr : ℕ) → Pc K V
  unlinking : (j : Job K V) (pred curr succ : ℕ) → Pc K V
  unlink_swap : (j : Job K V) (pred curr succ ver : ℕ) → Pc K V
  -- in `listInsert`: about to store the link of the node, to load `pred.next` and to swap it
  link_next : (j : Job K V) (pred curr : ℕ) → Pc K V
  link : (j : Job K V) (pred curr : ℕ) → Pc K V
  link_swap : (j : Job K V) (pred curr ver : ℕ) → Pc K V
  -- in `Set`, behind `listInsert`
  set_value : (k : K) (v : V) (curr : ℕ) → Pc K V
  set_count : Pc K V
  set_size : (c : ℕ) → Pc K V
  set_grow : (c csize : ℕ) → Pc K V
  -- in `Get`: about to load `curr.next`, and the value
  getting : (k : K) (curr : ℕ) → Pc K V
  get_value : (k : K) (curr : ℕ) → Pc K V
  -- in `Del`, behind `search`
  del_next : (k : K) (start pred curr : ℕ) → Pc K V
  del_mark : (k : K) (start pred curr : ℕ) (succ : Option ℕ) → Pc K V
  del_swap : (k : K) (start pred curr : ℕ) (succ : Option ℕ) (ver : ℕ) → Pc K V
  del_value : (pred curr : ℕ) (succ : Option ℕ) → Pc K V
  del_unlink : (pred curr : ℕ) (succ : Option ℕ) (v : V) → Pc K V
  del_unlink_swap : (pred curr : ℕ) (succ : Option ℕ) (ver : ℕ) (v : V) → Pc K V
  del_len : (v : V) → Pc K V
  -- about to return what it reports, with the value
  returning : Bool → Option V → Pc K V
  nil_dereference : Pc K V

-- `p.CompareAndSwap(nil, n)`.
abbrev pub first_of : Option ℕ → ℕ → Option ℕ
first_of none n = some n
first_of (some a) n = some a

module _ {K V : Type 0} (less : Less K) (hash : K → ℕ) (blank : K) where
  abbrev pub job_target : Job K V → SoKey K
  job_target (set_job k v n start) = regular hash k
  job_target (del_job k start) = regular hash k
  job_target (init_job g d b bs start) = sentinel blank b

  -- A new node, not linked yet.
  abbrev pub make_node : Split K V → SoKey K → V → Split K V
  make_node m x v = record m {
    nodes = record m.nodes {
      key = update m.nodes.key m.nodes.alloc x;
      val = update m.nodes.val m.nodes.alloc v;
      next = update m.nodes.next m.nodes.alloc (some 1);
      marked = update m.nodes.marked m.nodes.alloc false;
      alloc = m.nodes.alloc + 1;
    };
  }

  -- `curr = ...` in `Get`; the loop ends at nil.
  abbrev pub get_at : K → ℕ → Pc K V
  get_at k curr = if curr == 1 then returning false none else getting k curr

  -- `bucket` returns `start`.
  abbrev pub begin : Goal K V → ℕ → Pc K V
  begin (set_goal k v n) start = retry (set_job k v n start)
  begin (get_goal k) start = get_at k start
  begin (del_goal k) start = retry (del_job k start)

  -- `initBucket` returns `n`, to `bucket` or to itself.
  abbrev pub init_done : Goal K V → ℕ → List ℕ → Pc K V
  init_done g n [] = begin g n
  init_done g n (b ∷ bs) = init_make g n b bs

  -- Behind the loads of the pointer of bucket `b`.
  abbrev pub on_bucket : Goal K V → ℕ → Option ℕ → Pc K V
  on_bucket g b none = init_load g b []
  on_bucket g b (some n) = begin g n

  abbrev pub init_parent : Goal K V → ℕ → List ℕ → Option ℕ → Pc K V
  init_parent g b bs none = init_make g 0 b bs
  init_parent g b bs (some p) = init_load g p (b ∷ bs)

  abbrev pub on_init : Goal K V → ℕ → List ℕ → Option ℕ → Pc K V
  on_init g b bs none = init_parent g b bs (parent_bucket b)
  on_init g b bs (some n) = init_done g n bs

  abbrev pub on_reload : Goal K V → List ℕ → Option ℕ → Pc K V
  on_reload g bs none = nil_dereference
  on_reload g bs (some n) = init_done g n bs

  -- `v` is the zero value of `V`, of a sentinel.
  unfoldable pub access_bucket :
      V → Split K V → Pc K V → Split K V × Pc K V × Event (key_set V less)
  access_bucket v m (bucket_size g) =
      (m, bucket_load g (bucket_index (hash (goal_key g) % 2 ^ 32) m.size), tau)
  access_bucket v m (bucket_load g b) = (m, on_bucket g b (m.buckets b), tau)
  access_bucket v m (init_load g b bs) = (m, on_init g b bs (m.buckets b), tau)
  access_bucket v m (init_make g start b bs) =
      (make_node m (sentinel blank b) v, retry (init_job g m.nodes.alloc b bs start), tau)
  access_bucket v m (init_store g got b bs) = (
    record m { buckets = update m.buckets b (first_of (m.buckets b) got) },
    init_reload g b bs,
    tau,
  )
  access_bucket v m (init_reload g b bs) = (m, on_reload g bs (m.buckets b), tau)
  access_bucket v m p = (m, p, tau)
