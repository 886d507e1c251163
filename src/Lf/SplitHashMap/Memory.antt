-- ===== src/Lf/SplitHashMap/Memory.antt =====
-- lf/splithashmap.go: the nodes in split order, and the table.
use lockfree.Base.{
  ℕ, ◌%◌, ◌^◌, Option, none, some, Bool, true, false, not, ◌&&◌, ◌||◌, ltb, ◌==◌, if◌then◌else◌,
  update,
}
use lockfree.Base.Less.{Less}
use lockfree.Lf.List.Memory.{Nodes}
use lockfree.Lf.SplitHashMap.{so_regular, so_dummy}

-- The fields of a node (`soNode[K, V]`) that never change.
pub record SoKey (K : Type 0) : Type 0 where
  pub so_key : ℕ
  pub key : K
  pub dummy : Bool

-- `SplitHashMap[K, V]`. The head is at 0, and 1 is the nil pointer; `length` of the nodes is `count`.
-- The pointers to the sentinels are given by bucket.
pub record Split (K V : Type 0) : Type 0 where
  pub nodes : Nodes (SoKey K) V
  pub buckets : ℕ → Option ℕ
  pub size : ℕ

module _ {K : Type 0} where
  -- The node of an element, and the sentinel of bucket `b`; `blank` is the zero value of `K`.
  abbrev pub regular : (K → ℕ) → K → SoKey K
  regular hash k = record { so_key = so_regular (hash k % 2 ^ 32); key = k; dummy = false }

  abbrev pub sentinel : K → ℕ → SoKey K
  sentinel blank b = record { so_key = so_dummy b; key = blank; dummy = true }

  -- `nodeLess` and `nodeEqual`, of a node that is not nil.
  abbrev pub so_less : Less K → Less (SoKey K)
  so_less less n x = if n.so_key == x.so_key then less n.key x.key else ltb n.so_key x.so_key

  abbrev pub so_equal : Less K → SoKey K → SoKey K → Bool
  so_equal less n x =
      if n.so_key == x.so_key
      then (if n.dummy || x.dummy
          then n.dummy && x.dummy
          else not (less n.key x.key) && not (less x.key n.key))
      else false

  -- The tests of `Get`.
  abbrev pub get_equal : Less K → SoKey K → SoKey K → Bool
  get_equal less n x =
      not n.dummy && (n.so_key == x.so_key) && not (less n.key x.key) && not (less x.key n.key)

  abbrev pub is_past : SoKey K → SoKey K → Bool
  is_past n x = ltb x.so_key n.so_key

  -- `NewSplitHashMap`; the nil pointer and new nodes have some key and value that are never read.
  unfoldable pub new_split : {V : Type 0} → K → V → Split K V
  new_split blank val = record {
    nodes = record {
      key = λ a. sentinel blank 0;
      val = λ a. val;
      next = update (λ a. none) 0 (some 1);
      marked = λ a. false;
      ver = λ a. 0;
      alloc = 2;
      length = 0;
    };
    buckets = update (λ b. none) 0 (some 0);
    size = 2;
  }

  -- `Len`.
  unfoldable pub split_len : {V : Type 0} → Split K V → ℕ
  split_len m = m.nodes.length
