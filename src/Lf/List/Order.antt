-- ===== src/Lf/List/Order.antt =====
-- lf/list.go: the order of the nodes by their keys, and the paths along their links.
use lockfree.Base.{ℕ, ◌≡◌, ◌≢◌, Option, some, Bool, true, false, arith, if◌then◌else◌}
use lockfree.Base.Less.{Less, IsStrictOrder, lt_trans, lt_irrefl}
use lockfree.Lf.List.Memory.{Nodes, key_less, is_first, is_last}

module _ {K V : Type 0} (less : Less K) (m : Nodes K V) where
  -- Neither key is before the other.
  abbrev pub Same : K → K → Type 0
  Same x y = (less x y ≡ false) × (less y x ≡ false)

  -- Node `a` stands before node `b` in key order: the head before all, the tail behind all.
  abbrev pub node_less : ℕ → ℕ → Bool
  node_less a b =
      if is_first b
      then false
      else if is_last a
      then false
      else if is_first a
      then true
      else if is_last b
      then true
      else less (m.key a) (m.key b)

  abbrev pub Before : ℕ → ℕ → Type 0
  Before a b = node_less a b ≡ true

  -- An element, not a sentinel.
  abbrev pub IsNormal : ℕ → Type 0
  IsNormal a = (a ≢ 0) × (a ≢ 1)

-- Following the links from `a` leads to `b`.
pub data Leads (next : ℕ → Option ℕ) : ℕ → ℕ → Type 0 where
  here : {a b : ℕ} → a ≡ b → Leads next a b
  there : {a b : ℕ} (c : ℕ) → next a ≡ some c → Leads next c b → Leads next a b

module _ {K V : Type 0} {less : Less K} (order : IsStrictOrder less) (m : Nodes K V) where
  pub Before-trans : (a b c : ℕ) → Before less m a b → Before less m b c → Before less m a c
  Before-trans a b c p q = ground (arith, lt_trans order (m.key a) (m.key b) (m.key c))

  pub Before-irrefl : (a : ℕ) → Before less m a a → ⊥
  Before-irrefl a p = ground (arith, lt_irrefl order (m.key a))

  -- `pred` before `x` and `x` not behind ... what `keyLess` and `keyEqual` say of normal nodes.
  pub key_less-Before :
      (a b : ℕ) → IsNormal less m b → key_less less m a (m.key b) ≡ node_less less m a b
  key_less-Before a b (n0, n1) = ground arith
