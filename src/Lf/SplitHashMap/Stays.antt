-- ===== src/Lf/SplitHashMap/Stays.antt =====
-- lf/splithashmap.go: what a goroutine has learnt survives the accesses of the others.
use lockfree.Base.{ℕ, ◌≡◌, ◌≢◌, sym, ◌∙◌, Option, Bool, true, false, arith}
use lockfree.Base.Less.{Less, IsStrictOrder}
use lockfree.Lf.List.Inv.{IsBehind}
use lockfree.Lf.List.Stable.{linked-lt, IsLess-stays, IsBehind-stays, IsGone-stays, VerOk-stays}
use lockfree.Lf.SplitHashMap.Memory.{SoKey, Split, so_less}
use lockfree.Lf.SplitHashMap.Keys.{so_less-IsStrictOrder}
use lockfree.Lf.SplitHashMap.Inv.{
  Known, SplitInv, StartOk, Own, Linked, LessOk, GoneOk, SwapOk, Leaves,
}
use lockfree.Lf.SplitHashMap.Changes.{IsRoot-stays}

module _ {K V : Type 0} {less : Less K} (order : IsStrictOrder less) (hash : K → ℕ)
    (agree : (x y : K) → less x y ≡ false → less y x ≡ false → hash x ≡ hash y) (blank : K) (i : ℕ)
    (m : Split K V) (g : Known K) (present : K → Bool) (inv : SplitInv less hash blank m g present)
    (m' : Split K V) (g' : Known K) (present' : K → Bool)
    (inv' : SplitInv less hash blank m' g' present') (x : Leaves less hash blank m g i m' g') where
  so_order : IsStrictOrder (so_less less)
  so_order = so_less-IsStrictOrder order

  same_key : (a : ℕ) → g.past.linked a ≡ true → m'.nodes.key a ≡ m.nodes.key a
  same_key a h = x.keeps.key_stays a (linked-lt so_order inv.list a h)

  pub LessOk-stays :
      (a : ℕ) (y : SoKey K) → LessOk less hash blank m g a y → LessOk less hash blank m' g' a y
  LessOk-stays a y h =
      IsLess-stays so_order inv.list m'.nodes g'.past g'.keys inv'.list x.keeps a y h

  pub GoneOk-stays :
      (a : ℕ) (r : Option ℕ) → GoneOk less hash blank m g a r → GoneOk less hash blank m' g' a r
  GoneOk-stays a r h =
      IsGone-stays so_order inv.list m'.nodes g'.past g'.keys inv'.list x.keeps a r h

  pub SwapOk-stays :
      (a : ℕ) (r : Option ℕ) (v : ℕ)
      → g.past.linked a ≡ true
      → SwapOk less hash blank m g a r v
      → SwapOk less hash blank m' g' a r v
  SwapOk-stays a r v h ok =
      VerOk-stays so_order inv.list m'.nodes g'.past g'.keys inv'.list x.keeps a r v h ok

  pub Linked-stays : (a : ℕ) → Linked less hash blank m g a → Linked less hash blank m' g' a
  Linked-stays a h = x.keeps.linked_stays a h

  pub StartOk-stays :
      (a : ℕ) (y : SoKey K) → StartOk less hash blank m g a y → StartOk less hash blank m' g' a y
  StartOk-stays a y (root, before) = (
    IsRoot-stays order hash blank i m g present inv m' g' inv'.list x a root,
    (LessOk-stays a y (root.0.0, before)).1,
  )

  pub BehindOk-stays :
      (a : ℕ) (y : SoKey K)
      → IsBehind (so_less less) m.nodes g.past a y
      → IsBehind (so_less less) m'.nodes g'.past a y
  BehindOk-stays a y b =
      IsBehind-stays so_order inv.list m'.nodes g'.past g'.keys inv'.list x.keeps a y b

  pub Own-stays :
      (j n : ℕ) (y : SoKey K)
      → j ≢ i
      → Own less hash blank m g j n y
      → Own less hash blank m' g' j n y
  Own-stays j n y ne (lt, free, own, mk, key) =
      let (free', own', nx', mk') = x.keeps.private_stays n lt free (λ e. ne (sym own ∙ e)) in
      let le = x.keeps.alloc_le in
      (omega arith, free', own' ∙ own, mk' ∙ mk, x.keeps.key_stays n lt ∙ key)

  pub next-stays :
      (j n : ℕ) (y : SoKey K) (r : Option ℕ)
      → j ≢ i
      → Own less hash blank m g j n y
      → m.nodes.next n ≡ r
      → m'.nodes.next n ≡ r
  next-stays j n y r ne (lt, free, own, mk, key) e =
      let (free', own', nx', mk') = x.keeps.private_stays n lt free (λ z. ne (sym own ∙ z)) in
      nx' ∙ e
