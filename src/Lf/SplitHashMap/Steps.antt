-- ===== src/Lf/SplitHashMap/Steps.antt =====
-- lf/splithashmap.go: the step of `search` from a node, and what `search` returns.
use mathlib.Core.Path.{subst}
use lockfree.Base.{ℕ, ◌%◌, ◌≡◌, inl, inr, refl, sym, ap, ◌∙◌, some, Bool, Bool-cases, true, false}
use lockfree.Base.Less.{Less, IsStrictOrder}
use lockfree.Linear.{tau}
use lockfree.Linear.Spec.{Status, seen, Waits}
use lockfree.Linear.Simulate.{stays, observes}
use lockfree.Lf.List.{set_op, del_op, key_set}
use lockfree.Lf.List.Memory.{key_less, key_equal}
use lockfree.Lf.List.Reads.{next-some, marked-some, equal_present}
use lockfree.Lf.List.Mark.{equal-Same}
use lockfree.Lf.SplitHashMap.Sentinels.{so_dummy-even}
use lockfree.Lf.SplitHashMap.Memory.{Split, regular, sentinel, so_less, so_equal}
use lockfree.Lf.SplitHashMap.Keys.{
  IsWell, so_less-IsStrictOrder, so_equal-alike, regular-IsWell, sentinel-IsWell, Same-so_key,
  normal-key_less, normal-key_equal,
}
use lockfree.Lf.SplitHashMap.Access.{
  Job, set_job, del_job, init_job, job_target, Pc, init_store, searching, unlinking, set_value,
  del_next,
}
use lockfree.Lf.SplitHashMap.Access.Search.{found, search_at, access_search}
use lockfree.Lf.SplitHashMap.Inv.{Known, SplitInv, JobOk, PcOk}
use lockfree.Lf.SplitHashMap.Reads.{Tracks-Waits, apply_set}
use lockfree.Lf.SplitHashMap.Stores.{Outcome, no_store}
use lockfree.Lf.SplitHashMap.Search.{SeekOk-step, behind-PcOk, arrive-PcOk, after-first}

module _ {K V : Type 0} {less : Less K} (order : IsStrictOrder less) (hash : K → ℕ)
    (agree : (x y : K) → less x y ≡ false → less y x ≡ false → hash x ≡ hash y) (blank : K) (i : ℕ)
    (m : Split K V) (g : Known K) (present : K → Bool)
    (inv : SplitInv less hash blank m g present) where
  pub silent :
      (p : Pc K V) (t : Status (key_set V less))
      → PcOk less hash blank m g i p t
      → Outcome less hash blank i m g present t (m, p, tau)
  silent p t ok =
      no_store order hash agree blank i m g present inv p t t tau ok (stays refl refl refl)

  target-IsWell :
      (j : Job K V) (t : Status (key_set V less))
      → JobOk less hash blank m g i j t
      → IsWell blank (job_target less hash blank j)
  target-IsWell (set_job k v n s) t ok = regular-IsWell hash blank k
  target-IsWell (del_job k s) t ok = regular-IsWell hash blank k
  target-IsWell (init_job goal d b bs s) t (k, own, apart, lt, path, start) =
      sentinel-IsWell hash blank b lt

  -- `search` returns a node that is not before the key.
  found-Outcome :
      (j : Job K V) (pred curr : ℕ) (same : Bool) (t : Status (key_set V less))
      → PcOk less hash blank m g i (searching j pred curr) t
      → m.nodes.marked curr ≡ false
      → key_less (so_less less) m.nodes curr (job_target less hash blank j) ≡ false
      → key_equal (so_less less) m.nodes curr (job_target less hash blank j) ≡ same
      → Outcome less hash blank i m g present t (m, found less hash blank j pred curr same, tau)
  found-Outcome j pred curr false t (ok, seek, l, h, normal) mk e f =
      silent (found less hash blank j pred curr false) t
        (behind-PcOk order hash agree blank i m g present inv j pred curr t ok seek l (h, e, f))
  found-Outcome (set_job k v n s) pred curr true t (ok, seek, l, h, normal) mk e f =
      let here =
        equal_present (so_less-IsStrictOrder order) m.nodes g.past g.keys inv.list curr
          (regular hash k) mk (h, e, f) in
      no_store order hash agree blank i m g present inv (set_value k v curr) t
        (seen (set_op k v) true) tau refl
        (observes (set_op k v) true refl
          (subst (λ u. Waits (key_set V less) u (set_op k v)) (sym ok.0) refl)
          (apply_set order hash agree blank m g present inv k v here) refl refl)
  found-Outcome (del_job k s) pred curr true t (ok, seek, l, h, normal) mk e f =
      silent (del_next k s pred curr) t
        (Tracks-Waits order hash agree blank m g t (del_op k) curr seek, ok, l, (h, e, f))
  found-Outcome (init_job goal d b bs s) pred curr true t
        ((k, own, apart, lt, path, start), seek, l, h, normal) mk e f =
      let (off, (p, q)) = equal-Same (so_less less) m.nodes (sentinel blank b) curr e f in
      let number = Same-so_key less (m.nodes.key curr) (sentinel blank b) p q in
      let even = ap (λ (n : ℕ). n % 2) number ∙ so_dummy-even b lt in
      silent (init_store goal curr b bs) t (k, lt, path, (((h, mk), inr (normal, even)), number))

  pub searching-Outcome :
      (j : Job K V) (pred curr : ℕ) (t : Status (key_set V less))
      → PcOk less hash blank m g i (searching j pred curr) t
      → Outcome less hash blank i m g present t
          (access_search less hash blank m (searching j pred curr))
  unfolding access_search
  searching-Outcome j pred curr t (ok, seek, l, h, normal) =
      let x = job_target less hash blank j in
      let before_same : key_less (so_less less) m.nodes curr x ≡ so_less less (m.nodes.key curr) x =
        normal-key_less less m.nodes curr x normal in
      let equal_same : key_equal (so_less less) m.nodes curr x
          ≡ so_equal less (m.nodes.key curr) x =
        normal-key_equal less m.nodes curr x normal
        ∙ sym (
            so_equal-alike order blank (m.nodes.key curr) x (inv.well curr h normal)
              (target-IsWell j t ok)) in
      elim (Bool-cases (m.nodes.marked curr)) [
        | inl mk ↦
            let (b, e, h') =
              marked-some (so_less-IsStrictOrder order) m.nodes g.past g.keys inv.list curr h mk in
            rw (mk, e)
              (silent (unlinking j pred curr b) t (
                ok,
                SeekOk-step order hash agree blank i m g present inv j t curr b e (inl mk) seek,
                l,
                (h, mk, e),
                h',
              ))
        | inr mk ↦ elim (Bool-cases (so_less less (m.nodes.key curr) x)) [
          | inl before ↦
              let is_less = before_same ∙ before in
              let (b, e, h') =
                next-some (so_less-IsStrictOrder order) m.nodes g.past g.keys inv.list curr h
                  normal.1 in
              let on =
                SeekOk-step order hash agree blank i m g present inv j t curr b e (inr is_less)
                  seek in
              rw (mk, before, e)
                (silent (search_at less hash blank j curr (some b)) t (
                  arrive-PcOk order hash agree blank i m g present inv j curr b t ok on (h, is_less)
                    h' (after-first order hash agree blank i m g present inv curr b h e)))
          | inr behind ↦
              rw (mk, behind)
                (found-Outcome j pred curr (so_equal less (m.nodes.key curr) x) t
                  (ok, seek, l, h, normal) mk (before_same ∙ behind) equal_same)
        ]
      ]
