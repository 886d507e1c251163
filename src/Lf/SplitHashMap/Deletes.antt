-- ===== src/Lf/SplitHashMap/Deletes.antt =====
-- lf/splithashmap.go: each access of `Del`, behind `search`, keeps what holds of the table.
use mathlib.Core.Path.{subst}
use lockfree.Base.{
  ℕ, ◌+◌, ◌-◌, ◌%◌, ◌^◌, ◌≡◌, inl, inr, refl, sym, ◌∙◌, some, Bool, Bool-cases, true, false, ◌==◌,
  ==_iff,
}
use lockfree.Base.Less.{Less, IsStrictOrder}
use lockfree.Linear.{tau}
use lockfree.Linear.Spec.{Status, done}
use lockfree.Linear.Simulate.{stays}
use lockfree.Lf.List.{key_set}
use lockfree.Lf.List.Memory.{is_link, store_next}
use lockfree.Lf.List.Mark.{equal-Same}
use lockfree.Lf.List.Reads.{is_link-VerOk, marked-some}
use lockfree.Lf.SplitHashMap.Memory.{Split, regular, so_less}
use lockfree.Lf.SplitHashMap.Keys.{so_less-IsStrictOrder}
use lockfree.Lf.SplitHashMap.Access.{
  del_job, Pc, retry, del_next, del_mark, del_swap, del_value, del_unlink, del_unlink_swap, del_len,
  returning,
}
use lockfree.Lf.SplitHashMap.Access.Calls.{access_del}
use lockfree.Lf.SplitHashMap.Inv.{Known, SplitInv, PcOk}
use lockfree.Lf.SplitHashMap.Stores.{Outcome, quiet}
use lockfree.Lf.SplitHashMap.Links.{mark-Outcome, unlink-Outcome}
use lockfree.Lf.SplitHashMap.Calls.{silent, will_answer}

module _ {K V : Type 0} {less : Less K} (order : IsStrictOrder less) (hash : K → ℕ)
    (agree : (x y : K) → less x y ≡ false → less y x ≡ false → hash x ≡ hash y) (blank : K) (i : ℕ)
    (m : Split K V) (g : Known K) (present : K → Bool)
    (inv : SplitInv less hash blank m g present) where
  says :
      (p : Pc K V) (t : Status (key_set V less))
      → PcOk less hash blank m g i p t
      → Outcome less hash blank i m g present t (m, p, tau)
  says = silent order hash agree blank i m g present inv

  pub del-Outcome :
      (p : Pc K V) (t : Status (key_set V less))
      → PcOk less hash blank m g i p t
      → Outcome less hash blank i m g present t (access_del less hash blank m p)
  unfolding access_del
  del-Outcome (del_next k s pred curr) t (w, st, l, b) = elim (Bool-cases (m.nodes.marked curr)) [
    | inl mk ↦ rw mk (says (retry (del_job k s)) t (st, w))
    | inr mk ↦ rw mk (says (del_mark k s pred curr (m.nodes.next curr)) t (w, st, l, b))
  ]
  del-Outcome (del_mark k s pred curr succ) t (w, st, l, b) =
      elim (Bool-cases (is_link m.nodes curr succ)) [
        | inl is ↦ rw is (
            says (del_swap k s pred curr succ (m.nodes.ver curr)) t
              ((w, st, l, b), is_link-VerOk (so_less less) m.nodes g.past curr succ is))
        | inr not_there ↦ rw not_there (says (retry (del_job k s)) t (st, w))
      ]
  del-Outcome (del_swap k s pred curr succ ver) t ((w, st, l, (h, e, f)), (le, there)) =
      elim (Bool-cases (m.nodes.ver curr == ver)) [
        | inl same ↦
            let (at_curr, unmarked) = there ((==_iff (m.nodes.ver curr) ver).0 same) in
            let (normal, at_key) = equal-Same (so_less less) m.nodes (regular hash k) curr e f in
            rw same (
              mark-Outcome order hash agree blank i m g present inv k curr succ
                (del_value pred curr succ) t h normal at_key at_curr unmarked w
                (λ leaves gone. (refl, leaves.keeps.linked_stays pred l.0, gone)))
        | inr differ ↦ rw differ (says (retry (del_job k s)) t (st, w))
      ]
  del-Outcome (del_value pred curr succ) t ok =
      says (del_unlink pred curr succ (m.nodes.val curr)) t ok
  del-Outcome (del_unlink pred curr succ v) t (e, h, gone) =
      elim (Bool-cases (is_link m.nodes pred (some curr))) [
        | inl is ↦ rw is (
            says (del_unlink_swap pred curr succ (m.nodes.ver pred) v) t
              (e, h, gone, is_link-VerOk (so_less less) m.nodes g.past pred (some curr) is))
        | inr not_there ↦ rw not_there (says (del_len v) t e)
      ]
  del-Outcome (del_unlink_swap pred curr succ ver v) t (e, h, (h', mk, nx), (le, there)) =
      elim (Bool-cases (m.nodes.ver pred == ver)) [
        | inl same ↦
            let (at_pred, unmarked) = there ((==_iff (m.nodes.ver pred) ver).0 same) in
            let (b, e', h'') =
              marked-some (so_less-IsStrictOrder order) m.nodes g.past g.keys inv.list curr h' mk in
            rw same (
              subst
                (λ x.
                  Outcome less hash blank i m g present t
                    (record m { nodes = store_next m.nodes pred x false }, del_len v, tau))
                (sym e' ∙ nx)
                (unlink-Outcome order hash agree blank i m g present inv pred curr b (del_len v) t h
                  (h', mk, e') at_pred unmarked (λ inv' leaves still. e)))
        | inr differ ↦ rw differ (says (del_len v) t e)
      ]
  del-Outcome (del_len v) t ok =
      quiet order hash agree blank i m g present inv m.nodes.val
        ((m.nodes.length + (2 ^ 64 - 1)) % 2 ^ 64) m.size (returning true (some v)) t t tau
        inv.size_ok (will_answer V less t (done true) true ok refl) (stays refl refl refl)
  del-Outcome p t ok = says p t ok
