-- ===== src/Lf/List/Inv.antt =====
-- lf/list.go: what holds between any two accesses.
use lockfree.Base.{ℕ, ◌≤◌, ◌<◌, ◌≡◌, ◌≢◌, ◌⊎◌, Option, none, some, Bool, true, false}
use lockfree.Base.Less.{Less}
use lockfree.Linear.Spec.{Status, out, called, seen, done, Waits, Answers}
use lockfree.Lf.List.{
  ListOp, set_op, get_op, del_op, key_set, key_of, Pc, idle, retry, searching, unlinking,
  unlink_swap, set_value, set_node, set_link, set_swap, set_len, get_first, getting, get_value,
  del_next, del_mark, del_swap, del_value, del_unlink, del_unlink_swap, del_len, returning,
  nil_dereference,
}
use lockfree.Lf.List.Memory.{Nodes, key_less, key_equal}
use lockfree.Lf.List.Order.{Same, Before, IsNormal, Leads}

-- The nodes that were ever linked, and the goroutine that made each node.
pub record Past : Type 0 where
  pub linked : ℕ → Bool
  pub owner : ℕ → ℕ

module _ {K V : Type 0} (less : Less K) where
  -- Linked and not marked.
  abbrev pub Live : Nodes K V → Past → ℕ → Type 0
  Live m g a = (g.linked a ≡ true) × (m.marked a ≡ false)

  -- Every live node can be reached from the head, and the keys of the live nodes are those present.
  pub record Inv (m : Nodes K V) (g : Past) (keys : K → Bool) : Type 0 where
    pub first_live : Live m g 0
    pub last_live : Live m g 1
    pub last_next : m.next 1 ≡ none
    pub next_in :
        (a : ℕ)
        → g.linked a ≡ true
        → a ≢ 1
        → (b : ℕ) × (m.next a ≡ some b) × (g.linked b ≡ true) × Before less m a b
    pub led : (a : ℕ) → Live m g a → Leads m.next 0 a
    pub fresh : (a : ℕ) → m.alloc ≤ a → g.linked a ≡ false
    pub present :
        (a : ℕ) (x : K) → Live m g a → IsNormal less m a → Same less m (m.key a) x → keys x ≡ true
    pub held :
        (x : K) → keys x ≡ true → (a : ℕ) × Live m g a × IsNormal less m a × Same less m (m.key a) x

  module _ (m : Nodes K V) (g : Past) where
    -- There is a live node at `x`, and the links from `a` lead to it.
    abbrev pub Sought : K → ℕ → Type 0
    Sought x a =
        (b : ℕ) × Live m g b × IsNormal less m b × Same less m (m.key b) x × Leads m.next a b

    -- The call has seen its key absent; or the key has been there ever since.
    abbrev pub Tracks : Status (key_set V less) → ListOp K V → ℕ → Type 0
    Tracks t op a = (t ≡ seen op false) ⊎ (Waits (key_set V less) t op × Sought (key_of op) a)

    abbrev pub StartOk : ListOp K V → Status (key_set V less) → Type 0
    StartOk (set_op k v) t = t ≡ called (set_op k v)
    StartOk (get_op k) t = ⊥
    StartOk (del_op k) t = Waits (key_set V less) t (del_op k)

    abbrev pub SearchOk : ListOp K V → Status (key_set V less) → ℕ → Type 0
    SearchOk (set_op k v) t a = t ≡ called (set_op k v)
    SearchOk (get_op k) t a = ⊥
    SearchOk (del_op k) t a = Tracks t (del_op k) a

    abbrev pub IsLinked : ℕ → Type 0
    IsLinked a = g.linked a ≡ true

    -- A linked node before `x`; a linked node at `x`; a linked node behind `x`.
    abbrev pub IsLess : ℕ → K → Type 0
    IsLess a x = IsLinked a × (key_less less m a x ≡ true)

    abbrev pub IsEqual : ℕ → K → Type 0
    IsEqual a x = IsLinked a × (key_less less m a x ≡ false) × (key_equal less m a x ≡ true)

    abbrev pub IsBehind : ℕ → K → Type 0
    IsBehind a x = IsLinked a × (key_less less m a x ≡ false) × (key_equal less m a x ≡ false)

    -- A marked node, whose link is final.
    abbrev pub IsGone : ℕ → Option ℕ → Type 0
    IsGone a succ = IsLinked a × (m.marked a ≡ true) × (m.next a ≡ succ)

    -- If the pair is still there, it is `(ref, false)`.
    abbrev pub VerOk : ℕ → Option ℕ → ℕ → Type 0
    VerOk a ref ver = (ver ≤ m.ver a) × (m.ver a ≡ ver → (m.next a ≡ ref) × (m.marked a ≡ false))

    -- A node that goroutine `j` has made and not linked.
    abbrev pub IsPrivate : ℕ → ℕ → K → ℕ → Type 0
    IsPrivate j n k curr =
        (n < m.alloc)
        × (g.linked n ≡ false)
        × (g.owner n ≡ j)
        × (m.next n ≡ some curr)
        × (m.marked n ≡ false)
        × (m.key n ≡ k)

    -- What holds of goroutine `j` at its place, with its call at `t`.
    abbrev pub PcOk : ℕ → Pc K V → Status (key_set V less) → Type 0
    PcOk j idle t = t ≡ out
    PcOk j (retry op) t = StartOk op t
    PcOk j (searching op pred curr) t = SearchOk op t curr × IsLess pred (key_of op) × IsLinked curr
    PcOk j (unlinking op pred curr succ) t =
        SearchOk op t succ × IsLess pred (key_of op) × IsGone curr (some succ) × IsLinked succ
    PcOk j (unlink_swap op pred curr succ ver) t =
        SearchOk op t succ
        × IsLess pred (key_of op)
        × IsGone curr (some succ)
        × IsLinked succ
        × VerOk pred (some curr) ver
    PcOk j (set_value k v curr) t = t ≡ seen (set_op k v) true
    PcOk j (set_node k v pred curr) t = (t ≡ called (set_op k v)) × IsLess pred k × IsBehind curr k
    PcOk j (set_link k v pred curr n) t =
        (t ≡ called (set_op k v)) × IsLess pred k × IsBehind curr k × IsPrivate j n k curr
    PcOk j (set_swap k v pred curr n ver) t =
        (t ≡ called (set_op k v))
        × IsLess pred k
        × IsBehind curr k
        × IsPrivate j n k curr
        × VerOk pred (some curr) ver
    PcOk j set_len t = t ≡ done true
    PcOk j (get_first k) t = Waits (key_set V less) t (get_op k)
    PcOk j (getting k curr) t = Tracks t (get_op k) curr × IsLinked curr
    PcOk j (get_value k curr) t = t ≡ seen (get_op k) true
    PcOk j (del_next k pred curr) t =
        Waits (key_set V less) t (del_op k) × IsLess pred k × IsEqual curr k
    PcOk j (del_mark k pred curr succ) t =
        Waits (key_set V less) t (del_op k) × IsLess pred k × IsEqual curr k
    PcOk j (del_swap k pred curr succ ver) t =
        Waits (key_set V less) t (del_op k) × IsLess pred k × IsEqual curr k × VerOk curr succ ver
    PcOk j (del_value pred curr succ) t = (t ≡ done true) × IsLinked pred × IsGone curr succ
    PcOk j (del_unlink pred curr succ v) t = (t ≡ done true) × IsLinked pred × IsGone curr succ
    PcOk j (del_unlink_swap pred curr succ ver v) t =
        (t ≡ done true) × IsLinked pred × IsGone curr succ × VerOk pred (some curr) ver
    PcOk j (del_len v) t = t ≡ done true
    PcOk j (returning b v) t = Answers (key_set V less) t b
    PcOk j nil_dereference t = ⊥

    -- What an access of goroutine `i` leaves as it was, or moves forward only, when it leaves the
    -- memory `m'` with the keys `keys'`.
    pub record Keeps (i : ℕ) (m' : Nodes K V) (g' : Past) (keys' : K → Bool) : Type 0 where
      pub alloc_le : m.alloc ≤ m'.alloc
      pub key_stays : (a : ℕ) → a < m.alloc → m'.key a ≡ m.key a
      pub linked_stays : (a : ℕ) → g.linked a ≡ true → g'.linked a ≡ true
      pub private_stays :
          (a : ℕ)
          → a < m.alloc
          → g.linked a ≡ false
          → g.owner a ≢ i
          → (g'.linked a ≡ false)
            × (g'.owner a ≡ g.owner a)
            × (m'.next a ≡ m.next a)
            × (m'.marked a ≡ m.marked a)
      pub gone_stays :
          (a : ℕ)
          → g.linked a ≡ true
          → m.marked a ≡ true
          → (m'.marked a ≡ true) × (m'.next a ≡ m.next a)
      pub ver_stays :
          (a : ℕ)
          → g.linked a ≡ true
          → ((m'.ver a ≡ m.ver a) × (m'.next a ≡ m.next a) × (m'.marked a ≡ m.marked a))
            ⊎ (m.ver a < m'.ver a)
      pub live_stays :
          (a : ℕ) (x : K)
          → Live m g a
          → IsNormal less m a
          → Same less m (m.key a) x
          → keys' x ≡ true
          → Live m' g' a
      pub leads_stays :
          (a b : ℕ) → g.linked a ≡ true → Live m' g' b → Leads m.next a b → Leads m'.next a b
