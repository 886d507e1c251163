-- ===== src/Lf/SplitHashMap/Accesses.antt =====
-- lf/splithashmap.go: each access of `search` and `listInsert` keeps what holds of the table.
use lockfree.Base.{ℕ, ◌≡◌, inl, inr, some, Bool, Bool-cases, true, false, ◌==◌, ==_iff}
use lockfree.Base.Less.{Less, IsStrictOrder}
use lockfree.Linear.Spec.{Status}
use lockfree.Lf.List.{key_set}
use lockfree.Lf.List.Memory.{store_next, is_link}
use lockfree.Lf.List.Reads.{is_link-VerOk}
use lockfree.Lf.List.Stable.{Sought-stays}
use lockfree.Lf.SplitHashMap.Memory.{Split, regular, so_less}
use lockfree.Lf.SplitHashMap.Keys.{so_less-IsStrictOrder}
use lockfree.Lf.SplitHashMap.Access.{
  Job, set_job, del_job, init_job, job_target, Pc, retry, searching, unlinking, unlink_swap,
  link_next, link, link_swap,
}
use lockfree.Lf.SplitHashMap.Access.Search.{job_node, search_at, access_search}
use lockfree.Lf.SplitHashMap.Inv.{Known, SplitInv, JobOk, RetryOk, SeekOk, PcOk, Leaves, IsInsert}
use lockfree.Lf.SplitHashMap.Stays.{LessOk-stays, BehindOk-stays}
use lockfree.Lf.SplitHashMap.Jobs.{JobOk-still}
use lockfree.Lf.SplitHashMap.Stores.{Outcome}
use lockfree.Lf.SplitHashMap.Links.{prepare-Outcome, unlink-Outcome}
use lockfree.Lf.SplitHashMap.Search.{SeekOk-RetryOk, arrive-PcOk, after-first, retry-Outcome}
use lockfree.Lf.SplitHashMap.Steps.{silent, searching-Outcome}
use lockfree.Lf.SplitHashMap.Inserts.{link_swap-Outcome}

module _ {K V : Type 0} {less : Less K} (order : IsStrictOrder less) (hash : K → ℕ)
    (agree : (x y : K) → less x y ≡ false → less y x ≡ false → hash x ≡ hash y) (blank : K) (i : ℕ)
    (m : Split K V) (g : Known K) (present : K → Bool)
    (inv : SplitInv less hash blank m g present) where
  -- The node of a job that inserts.
  job_owned :
      (j : Job K V) (t : Status (key_set V less))
      → JobOk less hash blank m g i j t
      → IsInsert less hash blank m g j
      → (g.past.linked (job_node less hash blank j) ≡ false)
        × (g.past.owner (job_node less hash blank j) ≡ i)
  job_owned (set_job k v n s) t (e, (lt, free, own, mk, key), start) ins = (free, own)
  job_owned (del_job k s) t ok ins = absurd ins
  job_owned (init_job goal d b bs s) t (k, (d_lt, free, own, mk, key), apart, lt, path, start) ins =
      (free, own)

  insert-RetryOk :
      (j : Job K V) (t : Status (key_set V less))
      → IsInsert less hash blank m g j
      → RetryOk less hash blank m g j t
  insert-RetryOk (set_job k v n s) t ins = tt
  insert-RetryOk (del_job k s) t ins = absurd ins
  insert-RetryOk (init_job goal d b bs s) t ins = tt

  -- What a search has learnt stays, where the keys do.
  SeekOk-still :
      (m' : Split K V)
      → Leaves less hash blank m g i m' g
      → SplitInv less hash blank m' g present
      → (j : Job K V) (t : Status (key_set V less)) (a : ℕ) → g.past.linked a ≡ true
      → SeekOk less hash blank m g j t a
      → SeekOk less hash blank m' g j t a
  SeekOk-still m' leaves inv' (set_job k v n s) t a h seek = tt
  SeekOk-still m' leaves inv' (del_job k s) t a h (inl absent) = inl absent
  SeekOk-still m' leaves inv' (del_job k s) t a h (inr (w, way)) =
      let (c, live, normal, same, path) = way in
      let still = inv.list.present c (regular hash k) live normal same in
      inr (
        w,
        Sought-stays (so_less-IsStrictOrder order) inv.list m'.nodes g.past g.keys inv'.list
            leaves.keeps (regular hash k) a h still way,
      )
  SeekOk-still m' leaves inv' (init_job goal d b bs s) t a h seek = tt

  pub search-Outcome :
      (p : Pc K V) (t : Status (key_set V less))
      → PcOk less hash blank m g i p t
      → Outcome less hash blank i m g present t (access_search less hash blank m p)
  unfolding access_search
  search-Outcome (retry j) t (ok, w) =
      retry-Outcome order hash agree blank i m g present inv j t ok w
  search-Outcome (searching j pred curr) t ok =
      searching-Outcome order hash agree blank i m g present inv j pred curr t ok
  search-Outcome (unlinking j pred curr succ) t (ok, seek, l, gone, h) =
      elim (Bool-cases (is_link m.nodes pred (some curr))) [
        | inl is ↦ rw is (
            silent order hash agree blank i m g present inv
              (unlink_swap j pred curr succ (m.nodes.ver pred)) t
              (
                ok,
                seek,
                l,
                gone,
                h,
                is_link-VerOk (so_less less) m.nodes g.past pred (some curr) is,
              ))
        | inr not_there ↦ rw not_there (
            silent order hash agree blank i m g present inv (retry j) t
              (ok, SeekOk-RetryOk order hash agree blank i m g present inv j t succ seek))
      ]
  search-Outcome (unlink_swap j pred curr succ ver) t (ok, seek, l, gone, h, (le, there)) =
      elim (Bool-cases (m.nodes.ver pred == ver)) [
        | inl same ↦
            let (e, mk) = there ((==_iff (m.nodes.ver pred) ver).0 same) in
            let m' = record m { nodes = store_next m.nodes pred (some succ) false } in
            let off =
              after-first order hash agree blank i m g present inv curr succ gone.0 gone.2 in
            rw same (
              unlink-Outcome order hash agree blank i m g present inv pred curr succ
                (search_at less hash blank j pred (some succ)) t l.0 gone e mk
                (λ inv' leaves still.
                  arrive-PcOk order hash agree blank i m' g present inv' j pred succ t
                    (JobOk-still order hash agree blank i m g present inv m' g present inv' leaves
                      (λ n lt free own mk'. (free, own, still n mk')) j t ok)
                    (SeekOk-still m' leaves inv' j t succ h seek)
                    (LessOk-stays order hash agree blank i m g present inv m' g present inv' leaves
                      pred (job_target less hash blank j) l)
                    h off))
        | inr differ ↦ rw differ (
            silent order hash agree blank i m g present inv (retry j) t
              (ok, SeekOk-RetryOk order hash agree blank i m g present inv j t succ seek))
      ]
  search-Outcome (link_next j pred curr) t (ok, ins, l, b) =
      let m' = record m {
        nodes = store_next m.nodes (job_node less hash blank j) (some curr) false;
      } in
      let x = job_target less hash blank j in
      let (free, own) = job_owned j t ok ins in
      prepare-Outcome order hash agree blank i m g present inv (job_node less hash blank j) curr
        (link j pred curr) t free own
        (λ inv' leaves still nx. (
          (
            JobOk-still order hash agree blank i m g present inv m' g present inv' leaves
                (λ n lt free own mk'. (free, own, still n mk')) j t ok,
            ins,
            LessOk-stays order hash agree blank i m g present inv m' g present inv' leaves pred x l,
            BehindOk-stays order hash agree blank i m g present inv m' g present inv' leaves curr x
                b,
          ),
          nx,
        ))
  search-Outcome (link j pred curr) t ((ok, ins, l, b), nx) =
      elim (Bool-cases (is_link m.nodes pred (some curr))) [
        | inl is ↦ rw is (
            silent order hash agree blank i m g present inv
              (link_swap j pred curr (m.nodes.ver pred)) t
              (
                (ok, ins, l, b),
                nx,
                is_link-VerOk (so_less less) m.nodes g.past pred (some curr) is,
              ))
        | inr not_there ↦ rw not_there (
            silent order hash agree blank i m g present inv (retry j) t
              (ok, insert-RetryOk j t ins))
      ]
  search-Outcome (link_swap j pred curr ver) t ((ok, ins, l, b), nx, (le, there)) =
      elim (Bool-cases (m.nodes.ver pred == ver)) [
        | inl same ↦
            let (e, mk) = there ((==_iff (m.nodes.ver pred) ver).0 same) in
            rw same (
              link_swap-Outcome order hash agree blank i m g present inv j pred curr t
                (ok, ins, l, b) nx e mk)
        | inr differ ↦ rw differ (
            silent order hash agree blank i m g present inv (retry j) t
              (ok, insert-RetryOk j t ins))
      ]
  search-Outcome p t ok = silent order hash agree blank i m g present inv p t ok
