-- ===== src/Lf/List/Calls.antt =====
-- lf/list.go: each access of `Set`, `Get` and `Del` keeps what holds of the list.
use mathlib.Core.Path.{subst}
use lockfree.Base.{
  ℕ, ◌+◌, ◌-◌, ◌%◌, ◌^◌, ◌≡◌, ◌⊎◌, inl, inr, refl, sym, ◌∙◌, none, some, Bool, Bool-cases, true,
  false, arith, ◌==◌, ==_iff, update,
}
use lockfree.Base.Less.{Less, IsStrictOrder}
use lockfree.Linear.{tau}
use lockfree.Linear.Spec.{Status, seen, done, Answers}
use lockfree.Linear.Simulate.{stays, observes}
use lockfree.Lf.List.{
  set_op, get_op, del_op, key_set, Pc, retry, set_value, set_node, set_link, set_swap, set_len,
  get_first, getting, get_value, del_next, del_mark, del_swap, del_value, del_unlink,
  del_unlink_swap, del_len, returning,
}
use lockfree.Lf.List.Memory.{Nodes, key_less, key_equal, store_next, is_link}
use lockfree.Lf.List.Access.{access_set, access_get, access_del, get_at}
use lockfree.Lf.List.Inv.{Past, Inv, PcOk}
use lockfree.Lf.List.Paths.{Outcome}
use lockfree.Lf.List.Stores.{quiet, no_store, make-Outcome}
use lockfree.Lf.List.Insert.{insert-Outcome}
use lockfree.Lf.List.Mark.{equal-Same, mark-Outcome}
use lockfree.Lf.List.Unlink.{unlink-Outcome}
use lockfree.Lf.List.Reads.{
  is_link-VerOk, Tracks-Waits, get-present, equal_present, first-Tracks, Tracks-step, Tracks-absent,
  next-some, marked-some,
}

module _ {K : Type 0} (V' : Type 0) (less : Less K) where
  will_answer :
      (t u : Status (key_set V' less)) (b : Bool)
      → t ≡ u
      → Answers (key_set V' less) u b
      → Answers (key_set V' less) t b
  will_answer t u b e a = subst (λ s. Answers (key_set V' less) s b) (sym e) a

module _ {K V : Type 0} {less : Less K} (order : IsStrictOrder less) (i : ℕ) (m : Nodes K V)
    (g : Past) (keys : K → Bool) (inv : Inv less m g keys) where
  -- An access that tells the callers nothing and stores nothing.
  silent :
      (p : Pc K V) (t : Status (key_set V less))
      → PcOk less m g i p t
      → Outcome less i m g keys t (m, p, tau)
  silent p t ok = no_store order i m g keys inv p t t tau ok (stays refl refl refl)

  pub set-Outcome :
      (p : Pc K V) (t : Status (key_set V less))
      → PcOk less m g i p t
      → Outcome less i m g keys t (access_set less m p)
  unfolding access_set
  set-Outcome (set_value k v curr) t ok =
      quiet order i m g keys inv (update m.val curr v) m.length (returning true none) t t tau
        (will_answer V less t (seen (set_op k v) true) true ok refl) (stays refl refl refl)
  set-Outcome (set_node k v pred curr) t ok = make-Outcome order i m g keys inv k v curr pred t ok
  set-Outcome (set_link k v pred curr n) t (e, l, b, mine) =
      elim (Bool-cases (is_link m pred (some curr))) [
        | inl is ↦ rw is (
            silent (set_swap k v pred curr n (m.ver pred)) t
              (e, l, b, mine, is_link-VerOk less m g pred (some curr) is))
        | inr not_there ↦ rw not_there (silent (retry (set_op k v)) t e)
      ]
  set-Outcome (set_swap k v pred curr n ver) t
        (e, l, b, (lt, free, own, nx, mk, key), (le, there)) =
      elim (Bool-cases (m.ver pred == ver)) [
        | inl same ↦
            let (at_pred, unmarked) = there ((==_iff (m.ver pred) ver).0 same) in
            rw same (
              insert-Outcome order i m g keys inv k pred curr n l b lt free own nx mk key at_pred
                unmarked v t e)
        | inr differ ↦ rw differ (silent (retry (set_op k v)) t e)
      ]
  set-Outcome set_len t ok =
      quiet order i m g keys inv m.val ((m.length + 1) % 2 ^ 64) (returning true none) t t tau
        (will_answer V less t (done true) true ok refl) (stays refl refl refl)
  set-Outcome p t ok = silent p t ok

  -- A step of `Get` to the next node.
  go_on :
      (k : K) (curr b : ℕ) (t : Status (key_set V less))
      → PcOk less m g i (getting k curr) t
      → m.next curr ≡ some b
      → g.linked b ≡ true
      → (m.marked curr ≡ true) ⊎ (key_less less m curr k ≡ true)
      → Outcome less i m g keys t (m, get_at less k (m.next curr), tau)
  go_on k curr b t (track, h) e h' why =
      subst (λ x. Outcome less i m g keys t (m, get_at less k x, tau)) (sym e)
        (silent (getting k b) t
          (Tracks-step order m g keys inv t (get_op k) curr b e why track, h'))

  getting-Outcome :
      (k : K) (curr : ℕ) (t : Status (key_set V less))
      → PcOk less m g i (getting k curr) t
      → Outcome less i m g keys t (access_get less m (getting k curr))
  unfolding access_get
  getting-Outcome k curr t (track, h) = elim (Bool-cases (m.marked curr)) [
    | inl mk ↦
        let (b, e, h') = marked-some order m g keys inv curr h mk in
        rw mk (go_on k curr b t (track, h) e h' (inl mk))
    | inr mk ↦ elim (Bool-cases (key_less less m curr k)) [
      | inl before ↦
          let (b, e, h') = next-some order m g keys inv curr h (λ z. ground arith) in
          rw (mk, before) (go_on k curr b t (track, h) e h' (inr before))
      | inr behind ↦ elim (Bool-cases (key_equal less m curr k)) [
        | inl same ↦
            let here = equal_present order m g keys inv curr k mk (h, behind, same) in
            rw (mk, behind, same)
              (no_store order i m g keys inv (get_value k curr) t (seen (get_op k) true) tau refl (
                observes (get_op k) true refl
                  (Tracks-Waits order m g keys inv t (get_op k) curr track)
                  (get-present order m g keys inv k here) refl refl))
        | inr differ ↦
            let absent = Tracks-absent order m g keys inv t (get_op k) curr h behind differ track in
            rw (mk, behind, differ)
              (silent (returning false none) t
                (will_answer V less t (seen (get_op k) false) false absent refl))
      ]
    ]
  ]

  pub get-Outcome :
      (p : Pc K V) (t : Status (key_set V less))
      → PcOk less m g i p t
      → Outcome less i m g keys t (access_get less m p)
  unfolding access_get
  get-Outcome (get_first k) t ok =
      let (b, e, h) = next-some order m g keys inv 0 inv.first_live.0 (λ z. omega arith) in
      let (t', track, local) = first-Tracks order m g keys inv (get_op k) t b tt ok e in
      subst (λ x. Outcome less i m g keys t (m, get_at less k x, tau)) (sym e)
        (no_store order i m g keys inv (getting k b) t t' tau (track, h) local)
  get-Outcome (getting k curr) t ok = getting-Outcome k curr t ok
  get-Outcome (get_value k curr) t ok =
      silent (returning true (some (m.val curr))) t
        (will_answer V less t (seen (get_op k) true) true ok refl)
  get-Outcome p t ok = silent p t ok

  pub del-Outcome :
      (p : Pc K V) (t : Status (key_set V less))
      → PcOk less m g i p t
      → Outcome less i m g keys t (access_del less m p)
  unfolding access_del
  del-Outcome (del_next k pred curr) t (w, l, b) = elim (Bool-cases (m.marked curr)) [
    | inl mk ↦ rw mk (silent (retry (del_op k)) t w)
    | inr mk ↦ rw mk (silent (del_mark k pred curr (m.next curr)) t (w, l, b))
  ]
  del-Outcome (del_mark k pred curr succ) t (w, l, b) = elim (Bool-cases (is_link m curr succ)) [
    | inl is ↦ rw is (
        silent (del_swap k pred curr succ (m.ver curr)) t
          (w, l, b, is_link-VerOk less m g curr succ is))
    | inr not_there ↦ rw not_there (silent (retry (del_op k)) t w)
  ]
  del-Outcome (del_swap k pred curr succ ver) t (w, l, (h, e, f), (le, there)) =
      elim (Bool-cases (m.ver curr == ver)) [
        | inl same ↦
            let (at_curr, unmarked) = there ((==_iff (m.ver curr) ver).0 same) in
            let (normal, at_key) = equal-Same less m k curr e f in
            rw same (
              mark-Outcome order i m g keys inv k curr succ h normal at_key at_curr unmarked pred t
                w l.0)
        | inr differ ↦ rw differ (silent (retry (del_op k)) t w)
      ]
  del-Outcome (del_value pred curr succ) t ok = silent (del_unlink pred curr succ (m.val curr)) t ok
  del-Outcome (del_unlink pred curr succ v) t (e, h, gone) =
      elim (Bool-cases (is_link m pred (some curr))) [
        | inl is ↦ rw is (
            silent (del_unlink_swap pred curr succ (m.ver pred) v) t
              (e, h, gone, is_link-VerOk less m g pred (some curr) is))
        | inr not_there ↦ rw not_there (silent (del_len v) t e)
      ]
  del-Outcome (del_unlink_swap pred curr succ ver v) t (e, h, (h', mk, nx), (le, there)) =
      elim (Bool-cases (m.ver pred == ver)) [
        | inl same ↦
            let (at_pred, unmarked) = there ((==_iff (m.ver pred) ver).0 same) in
            let (b, e', h'') = marked-some order m g keys inv curr h' mk in
            rw same (
              subst (λ x. Outcome less i m g keys t (store_next m pred x false, del_len v, tau))
                (sym e' ∙ nx)
                (unlink-Outcome order i m g keys inv pred curr b h (h', mk, e') at_pred unmarked
                  (del_len v) t (λ inv' keeps. e)))
        | inr differ ↦ rw differ (silent (del_len v) t e)
      ]
  del-Outcome (del_len v) t ok =
      quiet order i m g keys inv m.val ((m.length + (2 ^ 64 - 1)) % 2 ^ 64)
        (returning true (some v)) t t tau (will_answer V less t (done true) true ok refl)
        (stays refl refl refl)
  del-Outcome p t ok = silent p t ok
