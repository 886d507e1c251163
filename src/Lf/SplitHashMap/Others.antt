-- ===== src/Lf/SplitHashMap/Others.antt =====
-- lf/splithashmap.go: what holds at the place of another goroutine survives an access.
use lockfree.Base.{ℕ, ◌≡◌, ◌≢◌, inl, refl, some, Bool, false}
use lockfree.Base.Less.{Less, IsStrictOrder}
use lockfree.Linear.Spec.{Status, Watch}
use lockfree.Lf.List.{get_op, key_set}
use lockfree.Lf.SplitHashMap.Memory.{Split, sentinel}
use lockfree.Lf.SplitHashMap.Access.{
  job_target, Pc, idle, bucket_size, bucket_load, init_load, init_make, init_store, init_reload,
  retry, searching, unlinking, unlink_swap, link_next, link, link_swap, set_value, set_count,
  set_size, set_grow, getting, get_value, del_next, del_mark, del_swap, del_value, del_unlink,
  del_unlink_swap, del_len, returning, nil_dereference,
}
use lockfree.Lf.SplitHashMap.Inv.{Known, SplitInv, PcOk, Leaves}
use lockfree.Lf.SplitHashMap.Changes.{IsSentinel-stays}
use lockfree.Lf.SplitHashMap.Stays.{
  LessOk-stays, GoneOk-stays, SwapOk-stays, Linked-stays, StartOk-stays,
}
use lockfree.Lf.SplitHashMap.Jobs.{
  GoalOk-stays, Tracks-stays, JobOk-stays, JobOk-keeps, RetryOk-stays, PlaceOk-stays,
  job_next-stays, DelOk-stays,
}

module _ {K V : Type 0} {less : Less K} (order : IsStrictOrder less) (hash : K → ℕ)
    (agree : (x y : K) → less x y ≡ false → less y x ≡ false → hash x ≡ hash y) (blank : K) (i : ℕ)
    (m : Split K V) (g : Known K) (present : K → Bool) (inv : SplitInv less hash blank m g present)
    (m' : Split K V) (g' : Known K) (present' : K → Bool)
    (inv' : SplitInv less hash blank m' g' present') (x : Leaves less hash blank m g i m' g') where
  pub PcOk-stays :
      (j : ℕ) (p : Pc K V) (t : Status (key_set V less))
      → j ≢ i
      → PcOk less hash blank m g j p t
      → (u : Status (key_set V less)) × Watch (key_set V less) present' t u
        × PcOk less hash blank m' g' j p u
  PcOk-stays j idle t ne k = (t, inl refl, k)
  PcOk-stays j (bucket_size goal) t ne k = (
    t,
    inl refl,
    GoalOk-stays order hash agree blank i m g present inv m' g' present' inv' x j goal t ne k,
  )
  PcOk-stays j (bucket_load goal b) t ne (k, lt, path) = (
    t,
    inl refl,
    (
      GoalOk-stays order hash agree blank i m g present inv m' g' present' inv' x j goal t ne k,
      lt,
      path,
    ),
  )
  PcOk-stays j (init_load goal b bs) t ne (k, lt, path) = (
    t,
    inl refl,
    (
      GoalOk-stays order hash agree blank i m g present inv m' g' present' inv' x j goal t ne k,
      lt,
      path,
    ),
  )
  PcOk-stays j (init_make goal s b bs) t ne (k, lt, path, start) = (
    t,
    inl refl,
    (
      GoalOk-stays order hash agree blank i m g present inv m' g' present' inv' x j goal t ne k,
      lt,
      path,
      StartOk-stays order hash agree blank i m g present inv m' g' present' inv' x s
          (sentinel blank b) start,
    ),
  )
  PcOk-stays j (init_store goal n b bs) t ne (k, lt, path, e) = (
    t,
    inl refl,
    (
      GoalOk-stays order hash agree blank i m g present inv m' g' present' inv' x j goal t ne k,
      lt,
      path,
      IsSentinel-stays order hash blank i m g present inv m' g' inv'.list x n b e,
    ),
  )
  PcOk-stays j (init_reload goal b bs) t ne (k, lt, path, (n, e)) = (
    t,
    inl refl,
    (
      GoalOk-stays order hash agree blank i m g present inv m' g' present' inv' x j goal t ne k,
      lt,
      path,
      (n, x.bucket_stays b n e),
    ),
  )
  PcOk-stays j (retry job) t ne (k, w) = (
    t,
    inl refl,
    (
      JobOk-keeps order hash agree blank i m g present inv m' g' present' inv' x j job t ne k,
      RetryOk-stays order hash agree blank i m g present inv m' g' present' inv' x job t w,
    ),
  )
  PcOk-stays j (searching job pred curr) t ne (k, s, l, h, off) =
      let (u, w, k', s') =
        JobOk-stays order hash agree blank i m g present inv m' g' present' inv' x j job t curr ne h
          k s in
      (
        u,
        w,
        (
          k',
          s',
          LessOk-stays order hash agree blank i m g present inv m' g' present' inv' x pred
              (job_target less hash blank job) l,
          Linked-stays order hash agree blank i m g present inv m' g' present' inv' x curr h,
          off,
        ),
      )
  PcOk-stays j (unlinking job pred curr succ) t ne (k, s, l, gone, h) =
      let (u, w, k', s') =
        JobOk-stays order hash agree blank i m g present inv m' g' present' inv' x j job t succ ne h
          k s in
      (
        u,
        w,
        (
          k',
          s',
          LessOk-stays order hash agree blank i m g present inv m' g' present' inv' x pred
              (job_target less hash blank job) l,
          GoneOk-stays order hash agree blank i m g present inv m' g' present' inv' x curr
              (some succ) gone,
          Linked-stays order hash agree blank i m g present inv m' g' present' inv' x succ h,
        ),
      )
  PcOk-stays j (unlink_swap job pred curr succ ver) t ne (k, s, l, gone, h, v) =
      let (u, w, k', s') =
        JobOk-stays order hash agree blank i m g present inv m' g' present' inv' x j job t succ ne h
          k s in
      (
        u,
        w,
        (
          k',
          s',
          LessOk-stays order hash agree blank i m g present inv m' g' present' inv' x pred
              (job_target less hash blank job) l,
          GoneOk-stays order hash agree blank i m g present inv m' g' present' inv' x curr
              (some succ) gone,
          Linked-stays order hash agree blank i m g present inv m' g' present' inv' x succ h,
          SwapOk-stays order hash agree blank i m g present inv m' g' present' inv' x pred
              (some curr) ver l.0 v,
        ),
      )
  PcOk-stays j (link_next job pred curr) t ne k = (
    t,
    inl refl,
    PlaceOk-stays order hash agree blank i m g present inv m' g' present' inv' x j job t pred curr
        ne k,
  )
  PcOk-stays j (link job pred curr) t ne (k, nx) = (
    t,
    inl refl,
    (
      PlaceOk-stays order hash agree blank i m g present inv m' g' present' inv' x j job t pred curr
          ne k,
      job_next-stays order hash agree blank i m g present inv m' g' present' inv' x j job t
          (some curr) ne k.0 k.1 nx,
    ),
  )
  PcOk-stays j (link_swap job pred curr ver) t ne (k, nx, v) = (
    t,
    inl refl,
    (
      PlaceOk-stays order hash agree blank i m g present inv m' g' present' inv' x j job t pred curr
          ne k,
      job_next-stays order hash agree blank i m g present inv m' g' present' inv' x j job t
          (some curr) ne k.0 k.1 nx,
      SwapOk-stays order hash agree blank i m g present inv m' g' present' inv' x pred (some curr)
          ver k.2.0 v,
    ),
  )
  PcOk-stays j (set_value k v curr) t ne e = (t, inl refl, e)
  PcOk-stays j set_count t ne e = (t, inl refl, e)
  PcOk-stays j (set_size c) t ne e = (t, inl refl, e)
  PcOk-stays j (set_grow c csize) t ne e = (t, inl refl, e)
  PcOk-stays j (getting k curr) t ne (track, h, off) =
      let (u, w, track') =
        Tracks-stays order hash agree blank i m g present inv m' g' present' inv' x (get_op k) t
          curr tt h track in
      (
        u,
        w,
        (
          track',
          Linked-stays order hash agree blank i m g present inv m' g' present' inv' x curr h,
          off,
        ),
      )
  PcOk-stays j (get_value k curr) t ne e = (t, inl refl, e)
  PcOk-stays j (del_next k s pred curr) t ne d = (
    t,
    inl refl,
    DelOk-stays order hash agree blank i m g present inv m' g' present' inv' x k s t pred curr d,
  )
  PcOk-stays j (del_mark k s pred curr succ) t ne d = (
    t,
    inl refl,
    DelOk-stays order hash agree blank i m g present inv m' g' present' inv' x k s t pred curr d,
  )
  PcOk-stays j (del_swap k s pred curr succ ver) t ne (d, v) = (
    t,
    inl refl,
    (
      DelOk-stays order hash agree blank i m g present inv m' g' present' inv' x k s t pred curr d,
      SwapOk-stays order hash agree blank i m g present inv m' g' present' inv' x curr succ ver
          d.3.0 v,
    ),
  )
  PcOk-stays j (del_value pred curr succ) t ne (e, h, gone) = (
    t,
    inl refl,
    (
      e,
      Linked-stays order hash agree blank i m g present inv m' g' present' inv' x pred h,
      GoneOk-stays order hash agree blank i m g present inv m' g' present' inv' x curr succ gone,
    ),
  )
  PcOk-stays j (del_unlink pred curr succ v) t ne (e, h, gone) = (
    t,
    inl refl,
    (
      e,
      Linked-stays order hash agree blank i m g present inv m' g' present' inv' x pred h,
      GoneOk-stays order hash agree blank i m g present inv m' g' present' inv' x curr succ gone,
    ),
  )
  PcOk-stays j (del_unlink_swap pred curr succ ver v) t ne (e, h, gone, r) = (
    t,
    inl refl,
    (
      e,
      Linked-stays order hash agree blank i m g present inv m' g' present' inv' x pred h,
      GoneOk-stays order hash agree blank i m g present inv m' g' present' inv' x curr succ gone,
      SwapOk-stays order hash agree blank i m g present inv m' g' present' inv' x pred (some curr)
          ver h r,
    ),
  )
  PcOk-stays j (del_len v) t ne e = (t, inl refl, e)
  PcOk-stays j (returning b v) t ne e = (t, inl refl, e)
  PcOk-stays j nil_dereference t ne e = (t, inl refl, e)
