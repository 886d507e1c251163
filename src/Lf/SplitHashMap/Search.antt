-- ===== src/Lf/SplitHashMap/Search.antt =====
-- lf/splithashmap.go: `search` goes from node to node.
use mathlib.Core.Path.{subst}
use lockfree.Base.{
  ℕ, ◌≡◌, ◌≢◌, ◌⊎◌, inl, inr, refl, sym, some, Bool, Bool-cases, true, false, arith, ◌==◌, ==_iff,
}
use lockfree.Base.Less.{Less, IsStrictOrder}
use lockfree.Linear.{tau}
use lockfree.Linear.Spec.{Status, seen, Answers}
use lockfree.Linear.Simulate.{stays}
use lockfree.Lf.List.{ListOp, del_op, key_set, key_of}
use lockfree.Lf.List.Memory.{key_less}
use lockfree.Lf.List.Inv.{IsBehind}
use lockfree.Lf.List.Reads.{not_at, next-some}
use lockfree.Lf.List.Sought.{Sought-step, Sought-behind}
use lockfree.Lf.List.Paths.{link-Before}
use lockfree.Lf.SplitHashMap.Memory.{Split, regular, so_less}
use lockfree.Lf.SplitHashMap.Keys.{so_less-IsStrictOrder}
use lockfree.Lf.SplitHashMap.Access.{Job, set_job, del_job, init_job, job_target}
use lockfree.Lf.SplitHashMap.Access.Search.{job_start, found, search_at}
use lockfree.Lf.SplitHashMap.Inv.{
  Known, SplitInv, IsRoot, JobOk, Tracks, RetryOk, SeekOk, LessOk, PcOk,
}
use lockfree.Lf.SplitHashMap.Reads.{start-Tracks, Tracks-Waits}
use lockfree.Lf.SplitHashMap.Stores.{Outcome, no_store}

module _ {K V : Type 0} {less : Less K} (order : IsStrictOrder less) (hash : K → ℕ)
    (agree : (x y : K) → less x y ≡ false → less y x ≡ false → hash x ≡ hash y) (blank : K) (i : ℕ)
    (m : Split K V) (g : Known K) (present : K → Bool)
    (inv : SplitInv less hash blank m g present) where
  -- One node on.
  pub Tracks-step :
      (t : Status (key_set V less)) (op : ListOp K V) (a b : ℕ)
      → m.nodes.next a ≡ some b
      → (m.nodes.marked a ≡ true)
        ⊎ (key_less (so_less less) m.nodes a (regular hash (key_of op)) ≡ true)
      → Tracks less hash blank m g t op a
      → Tracks less hash blank m g t op b
  Tracks-step t op a b e why (inl absent) = inl absent
  Tracks-step t op a b e why (inr (w, way)) = inr (
    w,
    Sought-step (so_less-IsStrictOrder order) m.nodes g.past g.keys inv.list
        (regular hash (key_of op)) a b e
        (not_at (so_less-IsStrictOrder order) m.nodes g.past g.keys inv.list
          (regular hash (key_of op)) a why)
        way,
  )

  -- Behind the key.
  pub Tracks-absent :
      (t : Status (key_set V less)) (op : ListOp K V) (a : ℕ)
      → IsBehind (so_less less) m.nodes g.past a (regular hash (key_of op))
      → Tracks less hash blank m g t op a
      → t ≡ seen op false
  Tracks-absent t op a (h, e, f) (inl absent) = absent
  Tracks-absent t op a (h, e, f) (inr (w, way)) = absurd (
      Sought-behind (so_less-IsStrictOrder order) m.nodes g.past g.keys inv.list
        (regular hash (key_of op)) a h e f way)

  pub SeekOk-step :
      (j : Job K V) (t : Status (key_set V less)) (a b : ℕ)
      → m.nodes.next a ≡ some b
      → (m.nodes.marked a ≡ true)
        ⊎ (key_less (so_less less) m.nodes a (job_target less hash blank j) ≡ true)
      → SeekOk less hash blank m g j t a
      → SeekOk less hash blank m g j t b
  SeekOk-step (set_job k v n s) t a b e why ok = tt
  SeekOk-step (del_job k s) t a b e why ok = Tracks-step t (del_op k) a b e why ok
  SeekOk-step (init_job goal d b' bs s) t a b e why ok = tt

  pub SeekOk-RetryOk :
      (j : Job K V) (t : Status (key_set V less)) (a : ℕ)
      → SeekOk less hash blank m g j t a
      → RetryOk less hash blank m g j t
  SeekOk-RetryOk (set_job k v n s) t a ok = tt
  SeekOk-RetryOk (del_job k s) t a ok = Tracks-Waits order hash agree blank m g t (del_op k) a ok
  SeekOk-RetryOk (init_job goal d b bs s) t a ok = tt

  -- `search` returns a place behind which the key is not.
  pub behind-PcOk :
      (j : Job K V) (pred curr : ℕ) (t : Status (key_set V less))
      → JobOk less hash blank m g i j t
      → SeekOk less hash blank m g j t curr
      → LessOk less hash blank m g pred (job_target less hash blank j)
      → IsBehind (so_less less) m.nodes g.past curr (job_target less hash blank j)
      → PcOk less hash blank m g i (found less hash blank j pred curr false) t
  behind-PcOk (set_job k v n s) pred curr t ok seek l b = (ok, tt, l, b)
  behind-PcOk (del_job k s) pred curr t ok seek l b =
      subst (λ u. Answers (key_set V less) u false) (sym (Tracks-absent t (del_op k) curr b seek))
        refl
  behind-PcOk (init_job goal d b' bs s) pred curr t ok seek l b = (ok, tt, l, b)

  -- `search` gets to `curr`, or to the end.
  pub arrive-PcOk :
      (j : Job K V) (pred curr : ℕ) (t : Status (key_set V less))
      → JobOk less hash blank m g i j t
      → SeekOk less hash blank m g j t curr
      → LessOk less hash blank m g pred (job_target less hash blank j)
      → g.past.linked curr ≡ true
      → curr ≢ 0
      → PcOk less hash blank m g i (search_at less hash blank j pred (some curr)) t
  arrive-PcOk j pred curr t ok seek l h off = elim (Bool-cases (curr == 1)) [
    | inl end ↦
        let at = (==_iff curr 1).0 end in
        rw end (
          behind-PcOk j pred curr t ok seek l (
            subst (λ c. IsBehind (so_less less) m.nodes g.past c (job_target less hash blank j))
              (sym at) (inv.list.last_live.0, refl, refl)))
    | inr on ↦ rw on (ok, seek, l, h, (off, λ e. ground arith))
  ]

  pub after-first : (a b : ℕ) → g.past.linked a ≡ true → m.nodes.next a ≡ some b → b ≢ 0
  after-first a b h e z =
      let (h', lt) =
        link-Before (so_less-IsStrictOrder order) m.nodes g.past g.keys inv.list a b h e in
      ground arith

  job_start-Outcome :
      (j : Job K V) (t : Status (key_set V less)) (c : ℕ)
      → JobOk less hash blank m g i j t
      → RetryOk less hash blank m g j t
      → m.nodes.next (job_start less hash blank j) ≡ some c
      → g.past.linked c ≡ true
      → c ≢ 0
      → Outcome less hash blank i m g present t
          (m, search_at less hash blank j (job_start less hash blank j) (some c), tau)
  job_start-Outcome (set_job k v n s) t c ok w e h off =
      no_store order hash agree blank i m g present inv
        (search_at less hash blank (set_job k v n s) s (some c)) t t tau
        (arrive-PcOk (set_job k v n s) s c t ok tt (ok.2.0.0.0, ok.2.1) h off)
        (stays refl refl refl)
  job_start-Outcome (del_job k s) t c ok w e h off =
      let (t', track, local) =
        start-Tracks order hash agree blank m g present inv (del_op k) t s tt w ok in
      let on = Tracks-step t' (del_op k) s c e (inr ok.1) track in
      no_store order hash agree blank i m g present inv
        (search_at less hash blank (del_job k s) s (some c)) t t' tau
        (arrive-PcOk (del_job k s) s c t' ok on (ok.0.0.0, ok.1) h off) local
  job_start-Outcome (init_job goal d b bs s) t c (k, own, apart, lt, path, start) w e h off =
      no_store order hash agree blank i m g present inv
        (search_at less hash blank (init_job goal d b bs s) s (some c)) t t tau
        (arrive-PcOk (init_job goal d b bs s) s c t (k, own, apart, lt, path, start) tt
          (start.0.0.0, start.1) h off)
        (stays refl refl refl)

  root_not_end : (s : ℕ) → IsRoot less hash blank m g s → s ≢ 1
  root_not_end s (live, inl first) e = omega arith
  root_not_end s (live, inr (normal, even)) e = normal.1 e

  job-IsRoot :
      (j : Job K V) (t : Status (key_set V less))
      → JobOk less hash blank m g i j t
      → IsRoot less hash blank m g (job_start less hash blank j)
  job-IsRoot (set_job k v n s) t ok = ok.2.0
  job-IsRoot (del_job k s) t ok = ok.0
  job-IsRoot (init_job goal d b bs s) t (k, own, apart, lt, path, start) = start.0

  pub retry-Outcome :
      (j : Job K V) (t : Status (key_set V less))
      → JobOk less hash blank m g i j t
      → RetryOk less hash blank m g j t
      → Outcome less hash blank i m g present t (
        m,
        search_at less hash blank j
            (job_start less hash blank j)
            (m.nodes.next (job_start less hash blank j)),
        tau,
      )
  retry-Outcome j t ok w =
      let s = job_start less hash blank j in
      let root = job-IsRoot j t ok in
      let (c, e, h) =
        next-some (so_less-IsStrictOrder order) m.nodes g.past g.keys inv.list s root.0.0
          (root_not_end s root) in
      subst (λ x. Outcome less hash blank i m g present t (m, search_at less hash blank j s x, tau))
        (sym e) (job_start-Outcome j t c ok w e h (after-first s c root.0.0 e))
