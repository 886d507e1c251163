-- ===== src/Lf/List/Search.antt =====
-- lf/list.go: each access of `search` keeps what holds of the list.
use mathlib.Core.Path.{subst}
use lockfree.Base.{
  ℕ, ◌≡◌, inl, inr, refl, sym, none, some, Bool, Bool-cases, true, false, arith, ◌==◌, ==_iff,
}
use lockfree.Base.Less.{Less, IsStrictOrder}
use lockfree.Linear.{tau}
use lockfree.Linear.Spec.{Status, seen, Waits, Answers}
use lockfree.Linear.Simulate.{stays, observes}
use lockfree.Lf.List.{
  ListOp, set_op, get_op, del_op, key_of, key_set, Pc, retry, searching, unlinking, unlink_swap,
  set_value, set_node, del_next, returning,
}
use lockfree.Lf.List.Memory.{Nodes, key_less, key_equal, store_next, is_link}
use lockfree.Lf.List.Access.{access_search, search_at, found}
use lockfree.Lf.List.Inv.{Past, Inv, StartOk, PcOk}
use lockfree.Lf.List.Stable.{IsLess-stays}
use lockfree.Lf.List.Paths.{Outcome}
use lockfree.Lf.List.Stores.{no_store}
use lockfree.Lf.List.Unlink.{unlink-Outcome}
use lockfree.Lf.List.Reads.{
  is_link-VerOk, Tracks-Waits, SearchOk-StartOk, set-present, equal_present, first-Tracks,
  Tracks-absent, SearchOk-still, SearchOk-step, next-some, marked-some,
}

module _ {K V : Type 0} {less : Less K} (order : IsStrictOrder less) (i : ℕ) (m : Nodes K V)
    (g : Past) (keys : K → Bool) (inv : Inv less m g keys) where
  first-Outcome :
      (op : ListOp K V) (t : Status (key_set V less)) (b : ℕ)
      → m.next 0 ≡ some b
      → g.linked b ≡ true
      → StartOk less m g op t
      → Outcome less i m g keys t (m, searching op 0 b, tau)
  first-Outcome (set_op k v) t b e h ok =
      no_store order i m g keys inv (searching (set_op k v) 0 b) t t tau
        (ok, (inv.first_live.0, refl), h) (stays refl refl refl)
  first-Outcome (get_op k) t b e h ok = absurd ok
  first-Outcome (del_op k) t b e h ok =
      let (t', tracks, local) = first-Tracks order m g keys inv (del_op k) t b tt ok e in
      no_store order i m g keys inv (searching (del_op k) 0 b) t t' tau
        (tracks, (inv.first_live.0, refl), h) local

  retry-Outcome :
      (op : ListOp K V) (t : Status (key_set V less))
      → StartOk less m g op t
      → Outcome less i m g keys t (m, search_at less op 0 (m.next 0), tau)
  retry-Outcome op t ok =
      let (b, e, h) = next-some order m g keys inv 0 inv.first_live.0 (λ z. omega arith) in
      subst (λ x. Outcome less i m g keys t (m, search_at less op 0 x, tau)) (sym e)
        (first-Outcome op t b e h ok)

  -- `search` returns a node that is not before the key.
  found-Outcome :
      (op : ListOp K V) (pred curr : ℕ) (same : Bool) (t : Status (key_set V less))
      → PcOk less m g i (searching op pred curr) t
      → m.marked curr ≡ false
      → key_less less m curr (key_of op) ≡ false
      → key_equal less m curr (key_of op) ≡ same
      → Outcome less i m g keys t (m, found less op pred curr same, tau)
  found-Outcome (set_op k v) pred curr true t (ok, l, h) mk e f =
      let there = equal_present order m g keys inv curr k mk (h, e, f) in
      no_store order i m g keys inv (set_value k v curr) t (seen (set_op k v) true) tau refl (
        observes (set_op k v) true refl
          (subst (λ u. Waits (key_set V less) u (set_op k v)) (sym ok) refl)
          (set-present order m g keys inv k v there) refl refl)
  found-Outcome (set_op k v) pred curr false t (ok, l, h) mk e f =
      no_store order i m g keys inv (set_node k v pred curr) t t tau (ok, l, (h, e, f))
        (stays refl refl refl)
  found-Outcome (get_op k) pred curr same t (ok, l, h) mk e f = absurd ok
  found-Outcome (del_op k) pred curr true t (ok, l, h) mk e f =
      no_store order i m g keys inv (del_next k pred curr) t t tau
        (Tracks-Waits order m g keys inv t (del_op k) curr ok, l, (h, e, f)) (stays refl refl refl)
  found-Outcome (del_op k) pred curr false t (ok, l, h) mk e f =
      let absent = Tracks-absent order m g keys inv t (del_op k) curr h e f ok in
      no_store order i m g keys inv (returning false none) t t tau
        (subst (λ u. Answers (key_set V less) u false) (sym absent) refl) (stays refl refl refl)

  searching-Outcome :
      (op : ListOp K V) (pred curr : ℕ) (t : Status (key_set V less))
      → PcOk less m g i (searching op pred curr) t
      → Outcome less i m g keys t (access_search less m (searching op pred curr))
  unfolding access_search
  searching-Outcome op pred curr t (ok, l, h) = elim (Bool-cases (m.marked curr)) [
    | inl mk ↦
        let (b, e, h') = marked-some order m g keys inv curr h mk in
        rw (mk, e)
          (no_store order i m g keys inv (unlinking op pred curr b) t t tau
            (SearchOk-step order m g keys inv op t curr b e (inl mk) ok, l, (h, mk, e), h')
            (stays refl refl refl))
    | inr mk ↦ elim (Bool-cases (key_less less m curr (key_of op))) [
      | inl before ↦
          let (b, e, h') = next-some order m g keys inv curr h (λ z. ground arith) in
          rw (mk, before, e)
            (no_store order i m g keys inv (searching op curr b) t t tau
              (SearchOk-step order m g keys inv op t curr b e (inr before) ok, (h, before), h')
              (stays refl refl refl))
      | inr behind ↦
          rw (mk, behind)
            (found-Outcome op pred curr (key_equal less m curr (key_of op)) t (ok, l, h) mk behind
              refl)
    ]
  ]

  pub search-Outcome :
      (p : Pc K V) (t : Status (key_set V less))
      → PcOk less m g i p t
      → Outcome less i m g keys t (access_search less m p)
  unfolding access_search
  search-Outcome (retry op) t ok = retry-Outcome op t ok
  search-Outcome (searching op pred curr) t ok = searching-Outcome op pred curr t ok
  search-Outcome (unlinking op pred curr succ) t (ok, l, gone, h) =
      elim (Bool-cases (is_link m pred (some curr))) [
        | inl is ↦ rw is (
            no_store order i m g keys inv (unlink_swap op pred curr succ (m.ver pred)) t t tau
              (ok, l, gone, h, is_link-VerOk less m g pred (some curr) is) (stays refl refl refl))
        | inr not_there ↦ rw not_there (
            no_store order i m g keys inv (retry op) t t tau
              (SearchOk-StartOk order m g keys inv op t succ ok) (stays refl refl refl))
      ]
  search-Outcome (unlink_swap op pred curr succ ver) t (ok, l, gone, h, (le, there)) =
      elim (Bool-cases (m.ver pred == ver)) [
        | inl same ↦
            let (e, mk) = there ((==_iff (m.ver pred) ver).0 same) in
            rw same (
              unlink-Outcome order i m g keys inv pred curr succ l.0 gone e mk
                (searching op pred succ) t
                (λ inv' keeps. (
                  SearchOk-still order m g keys inv i (store_next m pred (some succ) false) g inv'
                      keeps op t succ h ok,
                  IsLess-stays order inv (store_next m pred (some succ) false) g keys inv' keeps
                      pred (key_of op) l,
                  keeps.linked_stays succ h,
                )))
        | inr differ ↦ rw differ (
            no_store order i m g keys inv (retry op) t t tau
              (SearchOk-StartOk order m g keys inv op t succ ok) (stays refl refl refl))
      ]
  search-Outcome p t ok = no_store order i m g keys inv p t t tau ok (stays refl refl refl)
