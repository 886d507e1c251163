-- ===== src/Lf/SplitHashMap/Changes.antt =====
-- lf/splithashmap.go: an access to the nodes, and what it leaves of the table.
use mathlib.Core.Path.{subst}
use lockfree.Base.{ℕ, ◌%◌, ◌≡◌, ◌⊎◌, inl, inr, sym, ap, ◌∙◌, Bool, true}
use lockfree.Base.Less.{Less, IsStrictOrder, lt_irrefl}
use lockfree.Lf.List.Inv.{Live, Inv}
use lockfree.Lf.List.Stable.{linked-lt}
use lockfree.Lf.SplitHashMap.Memory.{SoKey, Split, so_less}
use lockfree.Lf.SplitHashMap.Keys.{IsWell, elements, so_less-IsStrictOrder}
use lockfree.Lf.SplitHashMap.Size.{IsSize}
use lockfree.Lf.SplitHashMap.Inv.{Known, SplitInv, IsRoot, IsSentinel, Leaves}

module _ {K V : Type 0} {less : Less K} (order : IsStrictOrder less) (hash : K → ℕ) (blank : K)
    (i : ℕ) (m : Split K V) (g : Known K) (present : K → Bool)
    (inv : SplitInv less hash blank m g present) (m' : Split K V) (g' : Known K)
    (list' : Inv (so_less less) m'.nodes g'.past g'.keys)
    (x : Leaves less hash blank m g i m' g') where
  same_key : (a : ℕ) → g.past.linked a ≡ true → m'.nodes.key a ≡ m.nodes.key a
  same_key a h = x.keeps.key_stays a (linked-lt (so_less-IsStrictOrder order) inv.list a h)

  pub IsRoot-stays : (a : ℕ) → IsRoot less hash blank m g a → IsRoot less hash blank m' g' a
  IsRoot-stays a (live, inl first) =
      (subst (λ n. Live (so_less less) m'.nodes g'.past n) (sym first) list'.first_live, inl first)
  IsRoot-stays a (live, inr (normal, even)) =
      let same = lt_irrefl (so_less-IsStrictOrder order) (m.nodes.key a) in
      let here = inv.list.present a (m.nodes.key a) live normal (same, same) in
      (
        x.keeps.live_stays a (m.nodes.key a) live normal (same, same)
            (x.even_stays (m.nodes.key a) even here),
        inr (normal, ap (λ (y : SoKey K). y.so_key % 2) (same_key a live.0) ∙ even),
      )

  pub IsSentinel-stays :
      (n b : ℕ) → IsSentinel less hash blank m g n b → IsSentinel less hash blank m' g' n b
  IsSentinel-stays n b (root, e) =
      (IsRoot-stays n root, ap (λ (y : SoKey K). y.so_key) (same_key n root.0.0) ∙ e)

  -- The table keeps its invariant if the buckets and the size do not change, and new nodes are well.
  pub SplitInv-stays :
      (present' : K → Bool)
      → present' ≡ elements hash g'.keys
      → ((a : ℕ)
          → g'.past.linked a ≡ true
          → (g.past.linked a ≡ true) ⊎ IsWell blank (m'.nodes.key a))
      → ((b : ℕ) → m'.buckets b ≡ m.buckets b)
      → m'.size ≡ m.size
      → SplitInv less hash blank m' g' present'
  SplitInv-stays present' are well buckets size = record {
    list = list';
    are_elements = are;
    well = λ a h normal. elim (well a h) [
      | inl was ↦ subst (IsWell blank) (sym (same_key a was)) (inv.well a was normal)
      | inr new ↦ new
    ];
    head_key = same_key 0 inv.list.first_live.0 ∙ inv.head_key;
    head_bucket = buckets 0 ∙ inv.head_bucket;
    sentinels = λ b n e. IsSentinel-stays n b (inv.sentinels b n (sym (buckets b) ∙ e));
    size_ok = subst IsSize (sym size) inv.size_ok;
  }
