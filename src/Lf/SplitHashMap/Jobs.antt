-- ===== src/Lf/SplitHashMap/Jobs.antt =====
-- lf/splithashmap.go: what a goroutine knows of its call survives the accesses of the others.
use lockfree.Base.{
  ℕ, ◌<◌, ◌≡◌, ◌≢◌, inl, inr, refl, ◌∙◌, Option, Bool, Bool-cases, true, false, arith,
}
use lockfree.Base.Less.{Less, IsStrictOrder}
use lockfree.Linear.Spec.{Status, seen, Watch}
use lockfree.Lf.List.{ListOp, del_op, key_of, key_set}
use lockfree.Lf.List.Stable.{IsEqual-stays, Sought-stays}
use lockfree.Lf.List.Reads.{Looks}
use lockfree.Lf.SplitHashMap.Memory.{SoKey, Split, regular, sentinel}
use lockfree.Lf.SplitHashMap.Keys.{so_less-IsStrictOrder}
use lockfree.Lf.SplitHashMap.Access.{
  Goal, set_goal, get_goal, del_goal, Job, set_job, del_job, init_job, job_target,
}
use lockfree.Lf.SplitHashMap.Access.Search.{job_node}
use lockfree.Lf.SplitHashMap.Inv.{
  Known, SplitInv, Own, GoalOk, JobOk, Tracks, RetryOk, SeekOk, PlaceOk, DelOk, IsInsert, Leaves,
}
use lockfree.Lf.SplitHashMap.Reads.{see_absent}
use lockfree.Lf.SplitHashMap.Stays.{
  LessOk-stays, StartOk-stays, BehindOk-stays, Own-stays, next-stays,
}

module _ {K V : Type 0} {less : Less K} (order : IsStrictOrder less) (hash : K → ℕ)
    (agree : (x y : K) → less x y ≡ false → less y x ≡ false → hash x ≡ hash y) (blank : K) (i : ℕ)
    (m : Split K V) (g : Known K) (present : K → Bool) (inv : SplitInv less hash blank m g present)
    (m' : Split K V) (g' : Known K) (present' : K → Bool)
    (inv' : SplitInv less hash blank m' g' present') (x : Leaves less hash blank m g i m' g') where
  pub GoalOk-stays :
      (j : ℕ) (goal : Goal K V) (t : Status (key_set V less))
      → j ≢ i
      → GoalOk less hash blank m g j goal t
      → GoalOk less hash blank m' g' j goal t
  GoalOk-stays j (set_goal k v n) t ne (e, own) = (
    e,
    Own-stays order hash agree blank i m g present inv m' g' present' inv' x j n (regular hash k) ne
        own,
  )
  GoalOk-stays j (get_goal k) t ne w = w
  GoalOk-stays j (del_goal k) t ne w = w

  pub Tracks-stays :
      (op : ListOp K V) (t : Status (key_set V less)) (a : ℕ)
      → Looks op
      → g.past.linked a ≡ true
      → Tracks less hash blank m g t op a
      → (u : Status (key_set V less)) × Watch (key_set V less) present' t u
        × Tracks less hash blank m' g' u op a
  Tracks-stays op t a l h (inl e) = (t, inl refl, inl e)
  Tracks-stays op t a l h (inr (w, way)) = elim (Bool-cases (g'.keys (regular hash (key_of op)))) [
    | inl still ↦ (
      t,
      inl refl,
      inr (
        w,
        Sought-stays (so_less-IsStrictOrder order) inv.list m'.nodes g'.past g'.keys inv'.list
            x.keeps (regular hash (key_of op)) a h still way,
      ),
    )
    | inr gone ↦ (
      seen op false,
      see_absent order hash agree blank m' g' present' inv' op t l gone w,
      inl refl,
    )
  ]

  -- A job, with what its search has learnt at `a`.
  pub JobOk-stays :
      (j : ℕ) (job : Job K V) (t : Status (key_set V less)) (a : ℕ)
      → j ≢ i
      → g.past.linked a ≡ true
      → JobOk less hash blank m g j job t
      → SeekOk less hash blank m g job t a
      → (u : Status (key_set V less)) × Watch (key_set V less) present' t u
        × JobOk less hash blank m' g' j job u
        × SeekOk less hash blank m' g' job u a
  JobOk-stays j (set_job k v n s) t a ne h (e, own, start) w = (
    t,
    inl refl,
    (
      e,
      Own-stays order hash agree blank i m g present inv m' g' present' inv' x j n (regular hash k)
          ne own,
      StartOk-stays order hash agree blank i m g present inv m' g' present' inv' x s
          (regular hash k) start,
    ),
    tt,
  )
  JobOk-stays j (del_job k s) t a ne h start track =
      let (u, w, track') = Tracks-stays (del_op k) t a tt h track in
      (
        u,
        w,
        StartOk-stays order hash agree blank i m g present inv m' g' present' inv' x s
            (regular hash k) start,
        track',
      )
  JobOk-stays j (init_job goal d b bs s) t a ne h (ok, own, apart, lt, path, start) w = (
    t,
    inl refl,
    (
      GoalOk-stays j goal t ne ok,
      Own-stays order hash agree blank i m g present inv m' g' present' inv' x j d
          (sentinel blank b) ne own,
      apart,
      lt,
      path,
      StartOk-stays order hash agree blank i m g present inv m' g' present' inv' x s
          (sentinel blank b) start,
    ),
    tt,
  )

  -- A job that has learnt nothing.
  pub JobOk-keeps :
      (j : ℕ) (job : Job K V) (t : Status (key_set V less))
      → j ≢ i
      → JobOk less hash blank m g j job t
      → JobOk less hash blank m' g' j job t
  JobOk-keeps j (set_job k v n s) t ne (e, own, start) = (
    e,
    Own-stays order hash agree blank i m g present inv m' g' present' inv' x j n (regular hash k) ne
        own,
    StartOk-stays order hash agree blank i m g present inv m' g' present' inv' x s (regular hash k)
        start,
  )
  JobOk-keeps j (del_job k s) t ne start =
      StartOk-stays order hash agree blank i m g present inv m' g' present' inv' x s
        (regular hash k) start
  JobOk-keeps j (init_job goal d b bs s) t ne (ok, own, apart, lt, path, start) = (
    GoalOk-stays j goal t ne ok,
    Own-stays order hash agree blank i m g present inv m' g' present' inv' x j d (sentinel blank b)
        ne own,
    apart,
    lt,
    path,
    StartOk-stays order hash agree blank i m g present inv m' g' present' inv' x s
        (sentinel blank b) start,
  )

  pub RetryOk-stays :
      (job : Job K V) (t : Status (key_set V less))
      → RetryOk less hash blank m g job t
      → RetryOk less hash blank m' g' job t
  RetryOk-stays (set_job k v n s) t w = tt
  RetryOk-stays (del_job k s) t w = w
  RetryOk-stays (init_job goal d b bs s) t w = tt

  pub PlaceOk-stays :
      (j : ℕ) (job : Job K V) (t : Status (key_set V less)) (pred curr : ℕ)
      → j ≢ i
      → PlaceOk less hash blank m g j job t pred curr
      → PlaceOk less hash blank m' g' j job t pred curr
  PlaceOk-stays j job t pred curr ne (ok, ins, l, b) = (
    JobOk-keeps j job t ne ok,
    ins,
    LessOk-stays order hash agree blank i m g present inv m' g' present' inv' x pred
        (job_target less hash blank job) l,
    BehindOk-stays order hash agree blank i m g present inv m' g' present' inv' x curr
        (job_target less hash blank job) b,
  )

  pub job_next-stays :
      (j : ℕ) (job : Job K V) (t : Status (key_set V less)) (r : Option ℕ)
      → j ≢ i
      → JobOk less hash blank m g j job t
      → IsInsert less hash blank m g job
      → m.nodes.next (job_node less hash blank job) ≡ r
      → m'.nodes.next (job_node less hash blank job) ≡ r
  job_next-stays j (set_job k v n s) t r ne (e, own, start) ins nx =
      next-stays order hash agree blank i m g present inv m' g' present' inv' x j n (regular hash k)
        r ne own nx
  job_next-stays j (del_job k s) t r ne ok ins nx = absurd ins
  job_next-stays j (init_job goal d b bs s) t r ne (ok, own, apart, lt, path, start) ins nx =
      next-stays order hash agree blank i m g present inv m' g' present' inv' x j d
        (sentinel blank b) r ne own nx

  pub DelOk-stays :
      (k : K) (s : ℕ) (t : Status (key_set V less)) (pred curr : ℕ)
      → DelOk less hash blank m g k s t pred curr
      → DelOk less hash blank m' g' k s t pred curr
  DelOk-stays k s t pred curr (w, start, l, e) = (
    w,
    StartOk-stays order hash agree blank i m g present inv m' g' present' inv' x s (regular hash k)
        start,
    LessOk-stays order hash agree blank i m g present inv m' g' present' inv' x pred
        (regular hash k) l,
    IsEqual-stays (so_less-IsStrictOrder order) inv.list m'.nodes g'.past g'.keys inv'.list x.keeps
        curr (regular hash k) e,
  )

  -- The goroutine that makes the access keeps the nodes that it has made.
  module _
      (still : (n : ℕ)
        → n < m.nodes.alloc
        → g.past.linked n ≡ false
        → g.past.owner n ≡ i
        → m.nodes.marked n ≡ false
        → (g'.past.linked n ≡ false) × (g'.past.owner n ≡ i) × (m'.nodes.marked n ≡ false)) where
    Own-still :
        (n : ℕ) (y : SoKey K) → Own less hash blank m g i n y → Own less hash blank m' g' i n y
    Own-still n y (lt, free, own, mk, key) =
        let (free', own', mk') = still n lt free own mk in
        let le = x.keeps.alloc_le in (omega arith, free', own', mk', x.keeps.key_stays n lt ∙ key)

    pub GoalOk-still :
        (goal : Goal K V) (t : Status (key_set V less))
        → GoalOk less hash blank m g i goal t
        → GoalOk less hash blank m' g' i goal t
    GoalOk-still (set_goal k v n) t (e, own) = (e, Own-still n (regular hash k) own)
    GoalOk-still (get_goal k) t w = w
    GoalOk-still (del_goal k) t w = w

    pub JobOk-still :
        (job : Job K V) (t : Status (key_set V less))
        → JobOk less hash blank m g i job t
        → JobOk less hash blank m' g' i job t
    JobOk-still (set_job k v n s) t (e, own, start) = (
      e,
      Own-still n (regular hash k) own,
      StartOk-stays order hash agree blank i m g present inv m' g' present' inv' x s
          (regular hash k) start,
    )
    JobOk-still (del_job k s) t start =
        StartOk-stays order hash agree blank i m g present inv m' g' present' inv' x s
          (regular hash k) start
    JobOk-still (init_job goal d b bs s) t (ok, own, apart, lt, path, start) = (
      GoalOk-still goal t ok,
      Own-still d (sentinel blank b) own,
      apart,
      lt,
      path,
      StartOk-stays order hash agree blank i m g present inv m' g' present' inv' x s
          (sentinel blank b) start,
    )
