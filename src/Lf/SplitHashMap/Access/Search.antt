-- ===== src/Lf/SplitHashMap/Access/Search.antt =====
-- lf/splithashmap.go: `search` and `listInsert`.
use lockfree.Base.{ℕ, Option, none, some, Bool, true, false, ◌==◌, if◌then◌else◌}
use lockfree.Base.Less.{Less}
use lockfree.Linear.{Event, tau}
use lockfree.Lf.List.{key_set}
use lockfree.Lf.List.Memory.{store_next, is_link}
use lockfree.Lf.SplitHashMap.Memory.{Split, so_less, so_equal}
use lockfree.Lf.SplitHashMap.Access.{
  Job, set_job, del_job, init_job, job_target, Pc, init_store, retry, searching, unlinking,
  unlink_swap, link_next, link, link_swap, set_value, set_count, del_next, returning,
  nil_dereference,
}

module _ {K V : Type 0} (less : Less K) (hash : K → ℕ) (blank : K) where
  abbrev pub job_start : Job K V → ℕ
  job_start (set_job k v n start) = start
  job_start (del_job k start) = start
  job_start (init_job g d b bs start) = start

  -- The node that `listInsert` is to insert.
  abbrev pub job_node : Job K V → ℕ
  job_node (set_job k v n start) = n
  job_node (del_job k start) = 1
  job_node (init_job g d b bs start) = d

  -- `search` returns `pred` and `curr`; `same` is `nodeEqual`.
  abbrev pub found : Job K V → (pred curr : ℕ) → (same : Bool) → Pc K V
  found (set_job k v n start) pred curr true = set_value k v curr
  found (set_job k v n start) pred curr false = link_next (set_job k v n start) pred curr
  found (del_job k start) pred curr true = del_next k start pred curr
  found (del_job k start) pred curr false = returning false none
  found (init_job g d b bs start) pred curr true = init_store g curr b bs
  found (init_job g d b bs start) pred curr false = link_next (init_job g d b bs start) pred curr

  -- `listInsert` has inserted its node.
  abbrev pub inserted : Job K V → Pc K V
  inserted (set_job k v n start) = set_count
  inserted (del_job k start) = nil_dereference
  inserted (init_job g d b bs start) = init_store g d b bs

  -- `curr = ...` in `search`, which ends at nil.
  abbrev pub search_at : Job K V → (pred : ℕ) → Option ℕ → Pc K V
  search_at j pred none = nil_dereference
  search_at j pred (some curr) =
      if curr == 1 then found j pred curr false else searching j pred curr

  abbrev pub search_next :
      Job K V → (pred curr : ℕ) → (succ : Option ℕ) → (mark before same : Bool) → Pc K V
  search_next j pred curr none true before same = nil_dereference
  search_next j pred curr (some succ) true before same = unlinking j pred curr succ
  search_next j pred curr succ false true same = search_at j curr succ
  search_next j pred curr succ false false same = found j pred curr same

  unfoldable pub access_search : Split K V → Pc K V → Split K V × Pc K V × Event (key_set V less)
  access_search m (retry j) = (m, search_at j (job_start j) (m.nodes.next (job_start j)), tau)
  access_search m (searching j pred curr) = (
    m,
    search_next j pred curr (m.nodes.next curr) (m.nodes.marked curr)
        (so_less less (m.nodes.key curr) (job_target less hash blank j))
        (so_equal less (m.nodes.key curr) (job_target less hash blank j)),
    tau,
  )
  access_search m (unlinking j pred curr succ) = (
    m,
    if is_link m.nodes pred (some curr)
        then unlink_swap j pred curr succ (m.nodes.ver pred)
        else retry j,
    tau,
  )
  access_search m (unlink_swap j pred curr succ ver) =
      if m.nodes.ver pred == ver
      then (
        record m { nodes = store_next m.nodes pred (some succ) false },
        search_at j pred (some succ),
        tau,
      )
      else (m, retry j, tau)
  access_search m (link_next j pred curr) = (
    record m { nodes = store_next m.nodes (job_node j) (some curr) false },
    link j pred curr,
    tau,
  )
  access_search m (link j pred curr) = (
    m,
    if is_link m.nodes pred (some curr) then link_swap j pred curr (m.nodes.ver pred) else retry j,
    tau,
  )
  access_search m (link_swap j pred curr ver) =
      if m.nodes.ver pred == ver
      then (record m { nodes = store_next m.nodes pred (some (job_node j)) false }, inserted j, tau)
      else (m, retry j, tau)
  access_search m p = (m, p, tau)
