-- ===== src/Lf/SplitHashMap/Access/Calls.antt =====
-- lf/splithashmap.go: `Set` behind `listInsert`, `Get` and `Del`, and the machine.
use lockfree.Base.{
  ℕ, ◌+◌, ◌-◌, ◌%◌, ◌^◌, Option, none, some, Bool, true, false, ◌==◌, if◌then◌else◌, update,
}
use lockfree.Base.Less.{Less}
use lockfree.Linear.{Event, tau, call, ret, Machine}
use lockfree.Lf.List.{ListOp, set_op, get_op, del_op, key_set}
use lockfree.Lf.List.Memory.{store_next, is_link}
use lockfree.Lf.SplitHashMap.{grow}
use lockfree.Lf.SplitHashMap.Memory.{Split, regular, get_equal, is_past}
use lockfree.Lf.SplitHashMap.Access.{
  set_goal, get_goal, del_goal, del_job, make_node, get_at, access_bucket, Pc, idle, bucket_size,
  bucket_load, init_load, init_make, init_store, init_reload, retry, set_value, set_count, set_size,
  set_grow, getting, get_value, del_next, del_mark, del_swap, del_value, del_unlink,
  del_unlink_swap, del_len, returning, nil_dereference,
}
use lockfree.Lf.SplitHashMap.Access.Search.{access_search}

module _ {K V : Type 0} (less : Less K) (hash : K → ℕ) (blank : K) where
  -- `curr = succ` in `Get`.
  abbrev pub get_on : K → Option ℕ → Pc K V
  get_on k none = nil_dereference
  get_on k (some curr) = get_at less hash blank k curr

  -- The loop of `Get` behind its load of `curr.next`.
  abbrev pub get_next : K → (curr : ℕ) → (succ : Option ℕ) → (mark past same : Bool) → Pc K V
  get_next k curr succ true past same = get_on k succ
  get_next k curr succ false true same = returning false none
  get_next k curr succ false false true = get_value k curr
  get_next k curr succ false false false = get_on k succ

  unfoldable pub access_set : Split K V → Pc K V → Split K V × Pc K V × Event (key_set V less)
  access_set m (set_value k v curr) = (
    record m { nodes = record m.nodes { val = update m.nodes.val curr v } },
    returning true none,
    tau,
  )
  access_set m set_count = (
    record m { nodes = record m.nodes { length = (m.nodes.length + 1) % 2 ^ 64 } },
    set_size ((m.nodes.length + 1) % 2 ^ 64),
    tau,
  )
  access_set m (set_size c) = (m, set_grow c m.size, tau)
  access_set m (set_grow c csize) =
      (record m { size = grow c csize m.size }, returning true none, tau)
  access_set m p = (m, p, tau)

  unfoldable pub access_get : Split K V → Pc K V → Split K V × Pc K V × Event (key_set V less)
  access_get m (getting k curr) = (
    m,
    get_next k curr (m.nodes.next curr) (m.nodes.marked curr)
        (is_past (m.nodes.key curr) (regular hash k))
        (get_equal less (m.nodes.key curr) (regular hash k)),
    tau,
  )
  access_get m (get_value k curr) = (m, returning true (some (m.nodes.val curr)), tau)
  access_get m p = (m, p, tau)

  unfoldable pub access_del : Split K V → Pc K V → Split K V × Pc K V × Event (key_set V less)
  access_del m (del_next k start pred curr) = (
    m,
    if m.nodes.marked curr
        then retry (del_job k start)
        else del_mark k start pred curr (m.nodes.next curr),
    tau,
  )
  access_del m (del_mark k start pred curr succ) = (
    m,
    if is_link m.nodes curr succ
        then del_swap k start pred curr succ (m.nodes.ver curr)
        else retry (del_job k start),
    tau,
  )
  access_del m (del_swap k start pred curr succ ver) =
      if m.nodes.ver curr == ver
      then (record m { nodes = store_next m.nodes curr succ true }, del_value pred curr succ, tau)
      else (m, retry (del_job k start), tau)
  access_del m (del_value pred curr succ) = (m, del_unlink pred curr succ (m.nodes.val curr), tau)
  access_del m (del_unlink pred curr succ v) = (
    m,
    if is_link m.nodes pred (some curr)
        then del_unlink_swap pred curr succ (m.nodes.ver pred) v
        else del_len v,
    tau,
  )
  access_del m (del_unlink_swap pred curr succ ver v) =
      if m.nodes.ver pred == ver
      then (record m { nodes = store_next m.nodes pred succ false }, del_len v, tau)
      else (m, del_len v, tau)
  access_del m (del_len v) = (
    record m { nodes = record m.nodes { length = (m.nodes.length + (2 ^ 64 - 1)) % 2 ^ 64 } },
    returning true (some v),
    tau,
  )
  access_del m p = (m, p, tau)

  -- `Set(k, v)`, which makes its node, `Get(k)` or `Del(k)` starts.
  unfoldable pub start : ListOp K V → Split K V → Split K V × Pc K V × Event (key_set V less)
  start (set_op k v) m = (
    make_node less hash blank m (regular hash k) v,
    bucket_size (set_goal k v m.nodes.alloc),
    call (set_op k v),
  )
  start (get_op k) m = (m, bucket_size (get_goal k), call (get_op k))
  start (del_op k) m = (m, bucket_size (del_goal k), call (del_op k))

  -- The next access of a goroutine; from `idle` it starts the call that it is given. `v` is the zero
  -- value of `V`.
  unfoldable pub access :
      V → ℕ → ListOp K V → Split K V → Pc K V → Split K V × Pc K V × Event (key_set V less)
  access v tid op m idle = start op m
  access v tid op m (returning b r) = (m, idle, ret b)
  access v tid op m (bucket_size g) = access_bucket less hash blank v m (bucket_size g)
  access v tid op m (bucket_load g b) = access_bucket less hash blank v m (bucket_load g b)
  access v tid op m (init_load g b bs) = access_bucket less hash blank v m (init_load g b bs)
  access v tid op m (init_make g s b bs) = access_bucket less hash blank v m (init_make g s b bs)
  access v tid op m (init_store g n b bs) = access_bucket less hash blank v m (init_store g n b bs)
  access v tid op m (init_reload g b bs) = access_bucket less hash blank v m (init_reload g b bs)
  access v tid op m (set_value k w curr) = access_set m (set_value k w curr)
  access v tid op m set_count = access_set m set_count
  access v tid op m (set_size c) = access_set m (set_size c)
  access v tid op m (set_grow c csize) = access_set m (set_grow c csize)
  access v tid op m (getting k curr) = access_get m (getting k curr)
  access v tid op m (get_value k curr) = access_get m (get_value k curr)
  access v tid op m (del_next k s pred curr) = access_del m (del_next k s pred curr)
  access v tid op m (del_mark k s pred curr succ) = access_del m (del_mark k s pred curr succ)
  access v tid op m (del_swap k s pred curr succ ver) =
      access_del m (del_swap k s pred curr succ ver)
  access v tid op m (del_value pred curr succ) = access_del m (del_value pred curr succ)
  access v tid op m (del_unlink pred curr succ w) = access_del m (del_unlink pred curr succ w)
  access v tid op m (del_unlink_swap pred curr succ ver w) =
      access_del m (del_unlink_swap pred curr succ ver w)
  access v tid op m (del_len w) = access_del m (del_len w)
  access v tid op m p = access_search less hash blank m p

  abbrev pub split_machine : V → Machine (key_set V less)
  split_machine v = record { Mem = Split K V; Pc = Pc K V; access = access v }
