-- ===== src/Lf/SplitHashMap/Keys.antt =====
-- lf/splithashmap.go: the order of the nodes, and the keys that they stand for.
use mathlib.Core.Path.{fun_ext}
use native.Mathlib.Nat.{mod-lt}
use lockfree.Base.{
  ℕ, ◌%◌, ◌^◌, ◌<◌, ◌≡◌, ◌⊎◌, inl, inr, refl, sym, ap, Bool, Bool-cases, true, false, not, ◌&&◌,
  ◌||◌, ◌==◌, if◌then◌else◌, arith,
}
use lockfree.Base.Less.{Less, IsStrictOrder, lt_irrefl}
use lockfree.Lf.List.{set_op, del_op, keys_apply_op}
use lockfree.Lf.List.Memory.{Nodes, key_less, key_equal}
use lockfree.Lf.List.Order.{IsNormal}
use lockfree.Lf.SplitHashMap.{so_regular}
use lockfree.Lf.SplitHashMap.Memory.{SoKey, regular, sentinel, so_less, so_equal, get_equal}
use lockfree.Lf.SplitHashMap.Sentinels.{so_dummy-even, so_regular-odd}

module _ {K : Type 0} {less : Less K} (order : IsStrictOrder less) where
  pub so_less-IsStrictOrder : IsStrictOrder (so_less less)
  so_less-IsStrictOrder = record {
    asym = λ x y h. ground (arith, order.asym x.key y.key);
    cotrans = λ x y z h k. ground (arith, order.cotrans x.key y.key z.key);
  }

-- A sentinel with the zero key and an even number, or an element with an odd one.
abbrev pub IsWell : {K : Type 0} → K → SoKey K → Type 0
IsWell blank x =
    ((x.dummy ≡ true) × (x.so_key % 2 ≡ 0) × (x.key ≡ blank))
    ⊎ ((x.dummy ≡ false) × (x.so_key % 2 ≡ 1))

abbrev pub alike : {K : Type 0} → Less K → SoKey K → SoKey K → Bool
alike less x y = not (so_less less x y) && not (so_less less y x)

module _ {K : Type 0} {less : Less K} (order : IsStrictOrder less) (blank : K) where
  -- For such nodes `nodeEqual` and the test of `Get` tell what the order does not tell apart.
  pub so_equal-alike :
      (x y : SoKey K) → IsWell blank x → IsWell blank y → so_equal less x y ≡ alike less x y
  so_equal-alike x y (inl (d, e, k)) (inl (d', e', k')) =
      let same : less x.key y.key ≡ false = rw (k, k') (lt_irrefl order blank) in
      let same' : less y.key x.key ≡ false = rw (k, k') (lt_irrefl order blank) in ground arith
  so_equal-alike x y (inl (d, e, k)) (inr (d', e')) =
      let ne : (x.so_key == y.so_key) ≡ false = ground arith in
      let ne' : (y.so_key == x.so_key) ≡ false = ground arith in ground arith
  so_equal-alike x y (inr (d, e)) (inl (d', e', k)) =
      let ne : (x.so_key == y.so_key) ≡ false = ground arith in
      let ne' : (y.so_key == x.so_key) ≡ false = ground arith in ground arith
  so_equal-alike x y (inr (d, e)) (inr (d', e')) = ground arith

  pub get_equal-alike :
      (x y : SoKey K)
      → IsWell blank x
      → y.dummy ≡ false
      → y.so_key % 2 ≡ 1
      → get_equal less x y ≡ alike less x y
  get_equal-alike x y (inl (d, e, k)) d' e' =
      let ne : (x.so_key == y.so_key) ≡ false = ground arith in
      let ne' : (y.so_key == x.so_key) ≡ false = ground arith in ground arith
  get_equal-alike x y (inr (d, e)) d' e' = ground arith

pub regular-odd : {K : Type 0} (hash : K → ℕ) (k : K) → (regular hash k).so_key % 2 ≡ 1
regular-odd hash k = so_regular-odd (hash k % 2 ^ 32) (mod-lt (hash k) (omega arith))

module _ {K : Type 0} (hash : K → ℕ) (blank : K) where
  pub regular-IsWell : (k : K) → IsWell blank (regular hash k)
  regular-IsWell k = inr (refl, regular-odd hash k)

  pub sentinel-IsWell : (b : ℕ) → b < 2 ^ 16 → IsWell blank (sentinel blank b)
  sentinel-IsWell b lt = inl (refl, so_dummy-even b lt, refl)

-- The keys of the elements.
abbrev pub elements : {K : Type 0} → (K → ℕ) → (SoKey K → Bool) → K → Bool
elements hash keys = λ k. keys (regular hash k)

module _ {K : Type 0} (V : Type 0) (less : Less K) (hash : K → ℕ)
    (agree : (x y : K) → less x y ≡ false → less y x ≡ false → hash x ≡ hash y) where
  -- Elements are told apart as their keys are.
  regular-differ :
      (j k : K)
      → (so_less less (regular hash j) (regular hash k)
          || so_less less (regular hash k) (regular hash j))
        ≡ (less j k || less k j)
  regular-differ j k = elim (Bool-cases (less j k || less k j)) [
    | inl differ ↦ ground arith
    | inr same ↦
        let key : (regular hash j).so_key ≡ (regular hash k).so_key =
          ap (λ (h : ℕ). so_regular (h % 2 ^ 32)) (agree j k (ground arith) (ground arith)) in
        ground arith
  ]

  pub set-elements :
      (k : K) (v : V) (keys : SoKey K → Bool)
      → keys_apply_op V less (set_op k v) (elements hash keys) ≡ (
        elements hash (λ x.
            if so_less less x (regular hash k) || so_less less (regular hash k) x
            then keys x
            else true),
        true,
      )
  unfolding keys_apply_op
  set-elements k v keys = λ i. (
    fun_ext
        (λ (j : K).
          ap (λ (b : Bool). if b then keys (regular hash j) else true) (sym (regular-differ j k)))
        i,
    true,
  )

  pub del-elements :
      (k : K) (keys : SoKey K → Bool)
      → keys_apply_op V less (del_op k) (elements hash keys) ≡ (
        elements hash (λ x.
            if so_less less x (regular hash k) || so_less less (regular hash k) x
            then keys x
            else false),
        keys (regular hash k),
      )
  unfolding keys_apply_op
  del-elements k keys = λ i. (
    fun_ext
        (λ (j : K).
          ap (λ (b : Bool). if b then keys (regular hash j) else false) (sym (regular-differ j k)))
        i,
    keys (regular hash k),
  )

-- An odd number and an even one are told apart.
pub parity_apart :
    {K : Type 0} (less : Less K) (x y : SoKey K)
    → x.so_key % 2 ≡ 0
    → y.so_key % 2 ≡ 1
    → ((so_less less x y || so_less less y x) ≡ true)
      × ((so_less less y x || so_less less x y) ≡ true)
parity_apart less x y e o =
    let ne : (x.so_key == y.so_key) ≡ false = ground arith in
    let ne' : (y.so_key == x.so_key) ≡ false = ground arith in (ground arith, ground arith)

-- A new sentinel is no element.
pub init-elements :
    {K : Type 0} (less : Less K) (hash : K → ℕ) (x : SoKey K) (keys : SoKey K → Bool)
    → x.so_key % 2 ≡ 0
    → elements hash keys
      ≡ elements hash (λ y. if so_less less y x || so_less less x y then keys y else true)
init-elements {K} less hash x keys even = fun_ext (λ (k : K). sym (
    ap (λ (b : Bool). if b then keys (regular hash k) else true)
      (parity_apart less x (regular hash k) even (regular-odd hash k)).1))

-- Keys that the order does not tell apart have the same number.
pub Same-so_key :
    {K : Type 0} (less : Less K) (x y : SoKey K)
    → so_less less x y ≡ false
    → so_less less y x ≡ false
    → x.so_key ≡ y.so_key
Same-so_key less x y p q = ground arith

module _ {K V : Type 0} (less : Less K) (m : Nodes (SoKey K) V) (a : ℕ) (x : SoKey K)
    (normal : IsNormal (so_less less) m a) where
  -- The tests of lf/list.go at a node that is no end.
  pub normal-key_less : key_less (so_less less) m a x ≡ so_less less (m.key a) x
  normal-key_less =
      let first : (a == 0) ≡ false = ground (arith, normal.0) in
      let last : (a == 1) ≡ false = ground (arith, normal.1) in rw (first, last) refl

  pub normal-key_equal : key_equal (so_less less) m a x ≡ alike less (m.key a) x
  normal-key_equal =
      let first : (a == 0) ≡ false = ground (arith, normal.0) in
      let last : (a == 1) ≡ false = ground (arith, normal.1) in rw (first, last) refl
