-- ===== src/Lf/List/Memory.antt =====
-- lf/list.go: the nodes with their markable links.
use lockfree.Base.{
  ℕ, ◌+◌, Option, none, some, Bool, true, false, not, ◌&&◌, ◌==◌, if◌then◌else◌, update,
}
use lockfree.Base.Less.{Less}

-- The fields of the nodes (`listNode[K, V]`) by address, and of the list. The head sentinel is at 0
-- and the tail sentinel at 1; their keys and values are never read. A link is the pair that
-- `listMarkableRef` points to; each pair that is stored is a new one, which `ver` counts.
pub record Nodes (K V : Type 0) : Type 0 where
  pub key : ℕ → K
  pub val : ℕ → V
  pub next : ℕ → Option ℕ
  pub marked : ℕ → Bool
  pub ver : ℕ → ℕ
  pub alloc : ℕ
  pub length : ℕ

abbrev pub is_first : ℕ → Bool
is_first a = a == 0

abbrev pub is_last : ℕ → Bool
is_last a = a == 1

module _ {K V : Type 0} where
  -- `keyLess` and `keyEqual`.
  abbrev pub key_less : Less K → Nodes K V → ℕ → K → Bool
  key_less less m n x = if is_first n then true else if is_last n then false else less (m.key n) x

  abbrev pub key_equal : Less K → Nodes K V → ℕ → K → Bool
  key_equal less m n x =
      if is_first n
      then false
      else if is_last n
      then false
      else not (less (m.key n) x) && not (less x (m.key n))

  -- `set`, and the successful compare-and-swap of a pair.
  unfoldable pub store_next : Nodes K V → ℕ → Option ℕ → Bool → Nodes K V
  store_next m a ref mark = record m {
    next = update m.next a ref;
    marked = update m.marked a mark;
    ver = update m.ver a (m.ver a + 1);
  }

  -- `NewList`.
  unfoldable pub new_list : K → V → Nodes K V
  new_list key val = record {
    key = λ a. key;
    val = λ a. val;
    next = update (λ a. none) 0 (some 1);
    marked = λ a. false;
    ver = λ a. 0;
    alloc = 2;
    length = 0;
  }

  -- `Len`.
  unfoldable pub len : Nodes K V → ℕ
  len m = m.length

-- `cur.ref == expectRef` and `!cur.marked`: the test of `compareAndSet(expectRef, _, false, _)`.
abbrev pub same_ref : Option ℕ → Option ℕ → Bool
same_ref none none = true
same_ref none (some b) = false
same_ref (some a) none = false
same_ref (some a) (some b) = a == b

abbrev pub is_link : {K V : Type 0} → Nodes K V → ℕ → Option ℕ → Bool
is_link m a ref = not (m.marked a) && same_ref (m.next a) ref
