-- ===== src/Lf/List/Access.antt =====
-- lf/list.go: `Set`, `Get`, `Del` and `search` as sequences of atomic accesses. A compare-and-swap
-- of a link is two: it loads the pair, and swaps it if the pair is still there. It is never asked to
-- store the link that is there.
use lockfree.Base.{
  ℕ, ◌+◌, ◌-◌, ◌%◌, ◌^◌, Option, none, some, Bool, true, false, ◌==◌, if◌then◌else◌, update,
}
use lockfree.Base.Less.{Less}
use lockfree.Linear.{Event, tau, call, ret, Machine}
use lockfree.Lf.List.Memory.{Nodes, key_less, key_equal, store_next, is_link}
use lockfree.Lf.List.{
  ListOp, set_op, get_op, del_op, key_set, key_of, Pc, idle, retry, searching, unlinking,
  unlink_swap, set_value, set_node, set_link, set_swap, set_len, get_first, getting, get_value,
  del_next, del_mark, del_swap, del_value, del_unlink, del_unlink_swap, del_len, returning,
  nil_dereference,
}

module _ {K V : Type 0} (less : Less K) where
  -- `curr = succ`, in `search` and in `Get`; the next access is to `curr`.
  abbrev pub search_at : ListOp K V → ℕ → Option ℕ → Pc K V
  search_at op pred none = nil_dereference
  search_at op pred (some curr) = searching op pred curr

  abbrev pub get_at : K → Option ℕ → Pc K V
  get_at k none = nil_dereference
  get_at k (some curr) = getting k curr

  -- `search` returns `pred` and `curr`, to `Set` or to `Del`; `same` is `keyEqual`.
  abbrev pub found : ListOp K V → ℕ → ℕ → Bool → Pc K V
  found (set_op k v) pred curr true = set_value k v curr
  found (set_op k v) pred curr false = set_node k v pred curr
  found (get_op k) pred curr same = returning same none
  found (del_op k) pred curr true = del_next k pred curr
  found (del_op k) pred curr false = returning false none

  -- The inner loop of `search` behind its load of `curr.next`; `before` is `keyLess`.
  abbrev pub search_next :
      ListOp K V → (pred curr : ℕ) → (succ : Option ℕ) → (mark before same : Bool) → Pc K V
  search_next op pred curr none true before same = nil_dereference
  search_next op pred curr (some succ) true before same = unlinking op pred curr succ
  search_next op pred curr succ false true same = search_at op curr succ
  search_next op pred curr succ false false same = found op pred curr same

  -- The loop of `Get` behind its load of `curr.next`.
  abbrev pub get_next : K → (curr : ℕ) → (succ : Option ℕ) → (mark before same : Bool) → Pc K V
  get_next k curr succ true before same = get_at k succ
  get_next k curr succ false true same = get_at k succ
  get_next k curr succ false false true = get_value k curr
  get_next k curr succ false false false = returning false none

  unfoldable pub access_search : Nodes K V → Pc K V → Nodes K V × Pc K V × Event (key_set V less)
  access_search m (retry op) = (m, search_at op 0 (m.next 0), tau)
  access_search m (searching op pred curr) = (
    m,
    search_next op pred curr (m.next curr) (m.marked curr) (key_less less m curr (key_of op))
        (key_equal less m curr (key_of op)),
    tau,
  )
  access_search m (unlinking op pred curr succ) = (
    m,
    if is_link m pred (some curr) then unlink_swap op pred curr succ (m.ver pred) else retry op,
    tau,
  )
  access_search m (unlink_swap op pred curr succ ver) =
      if m.ver pred == ver
      then (store_next m pred (some succ) false, searching op pred succ, tau)
      else (m, retry op, tau)
  access_search m p = (m, p, tau)

  unfoldable pub access_set : Nodes K V → Pc K V → Nodes K V × Pc K V × Event (key_set V less)
  access_set m (set_value k v curr) =
      (record m { val = update m.val curr v }, returning true none, tau)
  access_set m (set_node k v pred curr) = (
    record m {
      key = update m.key m.alloc k;
      val = update m.val m.alloc v;
      next = update m.next m.alloc (some curr);
      marked = update m.marked m.alloc false;
      alloc = m.alloc + 1;
    },
    set_link k v pred curr m.alloc,
    tau,
  )
  access_set m (set_link k v pred curr n) = (
    m,
    if is_link m pred (some curr)
        then set_swap k v pred curr n (m.ver pred)
        else retry (set_op k v),
    tau,
  )
  access_set m (set_swap k v pred curr n ver) =
      if m.ver pred == ver
      then (store_next m pred (some n) false, set_len, tau)
      else (m, retry (set_op k v), tau)
  access_set m set_len = (record m { length = (m.length + 1) % 2 ^ 64 }, returning true none, tau)
  access_set m p = (m, p, tau)

  unfoldable pub access_get : Nodes K V → Pc K V → Nodes K V × Pc K V × Event (key_set V less)
  access_get m (get_first k) = (m, get_at k (m.next 0), tau)
  access_get m (getting k curr) = (
    m,
    get_next k curr (m.next curr) (m.marked curr) (key_less less m curr k)
        (key_equal less m curr k),
    tau,
  )
  access_get m (get_value k curr) = (m, returning true (some (m.val curr)), tau)
  access_get m p = (m, p, tau)

  unfoldable pub access_del : Nodes K V → Pc K V → Nodes K V × Pc K V × Event (key_set V less)
  access_del m (del_next k pred curr) =
      (m, if m.marked curr then retry (del_op k) else del_mark k pred curr (m.next curr), tau)
  access_del m (del_mark k pred curr succ) = (
    m,
    if is_link m curr succ then del_swap k pred curr succ (m.ver curr) else retry (del_op k),
    tau,
  )
  access_del m (del_swap k pred curr succ ver) =
      if m.ver curr == ver
      then (store_next m curr succ true, del_value pred curr succ, tau)
      else (m, retry (del_op k), tau)
  access_del m (del_value pred curr succ) = (m, del_unlink pred curr succ (m.val curr), tau)
  access_del m (del_unlink pred curr succ v) = (
    m,
    if is_link m pred (some curr) then del_unlink_swap pred curr succ (m.ver pred) v else del_len v,
    tau,
  )
  access_del m (del_unlink_swap pred curr succ ver v) =
      if m.ver pred == ver
      then (store_next m pred succ false, del_len v, tau)
      else (m, del_len v, tau)
  access_del m (del_len v) =
      (record m { length = (m.length + (2 ^ 64 - 1)) % 2 ^ 64 }, returning true (some v), tau)
  access_del m p = (m, p, tau)

  -- `Set(k, v)`, `Get(k)` or `Del(k)` starts.
  abbrev pub start : ListOp K V → Pc K V
  start (set_op k v) = retry (set_op k v)
  start (get_op k) = get_first k
  start (del_op k) = retry (del_op k)

  -- The next access of a goroutine; from `idle` it starts the call that it is given.
  unfoldable pub access :
      ℕ → ListOp K V → Nodes K V → Pc K V → Nodes K V × Pc K V × Event (key_set V less)
  access tid op m idle = (m, start op, call op)
  access tid op m (returning b v) = (m, idle, ret b)
  access tid op m (retry o) = access_search m (retry o)
  access tid op m (searching o pred curr) = access_search m (searching o pred curr)
  access tid op m (unlinking o pred curr succ) = access_search m (unlinking o pred curr succ)
  access tid op m (unlink_swap o pred curr succ ver) =
      access_search m (unlink_swap o pred curr succ ver)
  access tid op m (set_value k v curr) = access_set m (set_value k v curr)
  access tid op m (set_node k v pred curr) = access_set m (set_node k v pred curr)
  access tid op m (set_link k v pred curr n) = access_set m (set_link k v pred curr n)
  access tid op m (set_swap k v pred curr n ver) = access_set m (set_swap k v pred curr n ver)
  access tid op m set_len = access_set m set_len
  access tid op m (get_first k) = access_get m (get_first k)
  access tid op m (getting k curr) = access_get m (getting k curr)
  access tid op m (get_value k curr) = access_get m (get_value k curr)
  access tid op m p = access_del m p

  abbrev pub list_machine : Machine (key_set V less)
  list_machine = record { Mem = Nodes K V; Pc = Pc K V; access = access }
