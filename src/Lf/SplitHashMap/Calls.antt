-- ===== src/Lf/SplitHashMap/Calls.antt =====
-- lf/splithashmap.go: each access of `Set`, behind `listInsert`, and of `Get` keeps what holds of the
-- table.
use mathlib.Core.Path.{subst}
use lockfree.Base.{ℕ, ◌+◌, ◌%◌, ◌^◌, ◌≡◌, refl, sym, none, Bool, true, false, arith, ◌==◌, update}
use lockfree.Base.Less.{Less, IsStrictOrder}
use lockfree.Linear.{tau}
use lockfree.Linear.Spec.{Status, seen, done, Answers}
use lockfree.Linear.Simulate.{stays}
use lockfree.Lf.List.{set_op, key_set}
use lockfree.Lf.SplitHashMap.{grow, so_dummy, reverse_bits}
use lockfree.Lf.SplitHashMap.Size.{grow-IsSize}
use lockfree.Lf.SplitHashMap.Memory.{SoKey, Split, so_less, is_past}
use lockfree.Lf.SplitHashMap.Keys.{alike}
use lockfree.Lf.SplitHashMap.Access.{Pc, set_value, set_count, set_size, set_grow, returning}
use lockfree.Lf.SplitHashMap.Access.Calls.{access_set}
use lockfree.Lf.SplitHashMap.Inv.{Known, SplitInv, PcOk}
use lockfree.Lf.SplitHashMap.Stores.{Outcome, quiet, no_store}

module _ {K : Type 0} (V : Type 0) (less : Less K) where
  pub will_answer :
      (t u : Status (key_set V less)) (b : Bool)
      → t ≡ u
      → Answers (key_set V less) u b
      → Answers (key_set V less) t b
  will_answer t u b e a = subst (λ s. Answers (key_set V less) s b) (sym e) a

pub so_dummy-zero : so_dummy 0 ≡ 0
unfolding so_dummy reverse_bits
so_dummy-zero = refl

pub past-differ :
    {K : Type 0} (less : Less K) (x y : SoKey K)
    → is_past x y ≡ true
    → (so_less less x y ≡ false) × (alike less x y ≡ false)
past-differ less x y past =
    let ne : (x.so_key == y.so_key) ≡ false = ground arith in
    let ne' : (y.so_key == x.so_key) ≡ false = ground arith in (ground arith, ground arith)

module _ {K V : Type 0} {less : Less K} (order : IsStrictOrder less) (hash : K → ℕ)
    (agree : (x y : K) → less x y ≡ false → less y x ≡ false → hash x ≡ hash y) (blank : K) (i : ℕ)
    (m : Split K V) (g : Known K) (present : K → Bool)
    (inv : SplitInv less hash blank m g present) where
  pub silent :
      (p : Pc K V) (t : Status (key_set V less))
      → PcOk less hash blank m g i p t
      → Outcome less hash blank i m g present t (m, p, tau)
  silent p t ok =
      no_store order hash agree blank i m g present inv p t t tau ok (stays refl refl refl)

  pub set-Outcome :
      (p : Pc K V) (t : Status (key_set V less))
      → PcOk less hash blank m g i p t
      → Outcome less hash blank i m g present t (access_set less hash blank m p)
  unfolding access_set
  set-Outcome (set_value k v curr) t ok =
      quiet order hash agree blank i m g present inv (update m.nodes.val curr v) m.nodes.length
        m.size (returning true none) t t tau inv.size_ok
        (will_answer V less t (seen (set_op k v) true) true ok refl) (stays refl refl refl)
  set-Outcome set_count t ok =
      quiet order hash agree blank i m g present inv m.nodes.val ((m.nodes.length + 1) % 2 ^ 64)
        m.size (set_size ((m.nodes.length + 1) % 2 ^ 64)) t t tau inv.size_ok ok
        (stays refl refl refl)
  set-Outcome (set_size c) t ok = silent (set_grow c m.size) t ok
  set-Outcome (set_grow c csize) t ok =
      quiet order hash agree blank i m g present inv m.nodes.val m.nodes.length
        (grow c csize m.size) (returning true none) t t tau (grow-IsSize c csize m.size inv.size_ok)
        (will_answer V less t (done true) true ok refl) (stays refl refl refl)
  set-Outcome p t ok = silent p t ok
