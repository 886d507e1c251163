-- ===== src/Lf/SplitHashMap/Buckets.antt =====
-- lf/splithashmap.go: each access of `bucket` and `initBucket` keeps what holds of the table.
use mathlib.Core.Path.{subst}
use native.Mathlib.Nat.{mod-lt}
use lockfree.Base.{
  ℕ, ◌%◌, ◌^◌, ◌<◌, ◌≡◌, ◌≢◌, inl, inr, refl, sym, ap, ◌∙◌, Option, Option-cases, none, some, Bool,
  Bool-cases, true, false, List, [], ◌∷◌, arith, ◌==◌, ==_iff, update_ne,
}
use lockfree.Base.Less.{Less, IsStrictOrder}
use lockfree.Linear.{tau}
use lockfree.Linear.Spec.{Status}
use lockfree.Linear.Simulate.{stays}
use lockfree.Lf.List.{get_op, key_set}
use lockfree.Lf.List.Memory.{key_less}
use lockfree.Lf.SplitHashMap.{so_regular, so_dummy, bucket_index}
use lockfree.Lf.SplitHashMap.Sentinels.{so_dummy-IsLast, parent_bucket-before, bucket-lt}
use lockfree.Lf.SplitHashMap.Memory.{SoKey, Split, regular, sentinel, so_less}
use lockfree.Lf.SplitHashMap.Keys.{normal-key_less}
use lockfree.Lf.SplitHashMap.Access.{
  Goal, set_goal, get_goal, del_goal, goal_key, set_job, del_job, init_job, Pc, bucket_size,
  bucket_load, init_load, init_make, init_store, init_reload, retry, getting, begin, init_done,
  on_bucket, on_init, on_reload, init_parent, make_node, access_bucket,
}
use lockfree.Lf.SplitHashMap.Inv.{Known, SplitInv, IsSentinel, StartOk, GoalOk, PathOk, Apart, PcOk}
use lockfree.Lf.SplitHashMap.Reads.{start-Tracks}
use lockfree.Lf.SplitHashMap.Stays.{StartOk-stays}
use lockfree.Lf.SplitHashMap.Jobs.{GoalOk-still}
use lockfree.Lf.SplitHashMap.Stores.{Outcome, no_store, bucket-Outcome, make-Outcome}

module _ {K V : Type 0} {less : Less K} (order : IsStrictOrder less) (hash : K → ℕ)
    (agree : (x y : K) → less x y ≡ false → less y x ≡ false → hash x ≡ hash y) (blank : K) (i : ℕ)
    (m : Split K V) (g : Known K) (present : K → Bool)
    (inv : SplitInv less hash blank m g present) where
  silent :
      (p : Pc K V) (t : Status (key_set V less))
      → PcOk less hash blank m g i p t
      → Outcome less hash blank i m g present t (m, p, tau)
  silent p t ok =
      no_store order hash agree blank i m g present inv p t t tau ok (stays refl refl refl)

  -- The sentinel of a bucket stands before a key with a greater number.
  IsSentinel-StartOk :
      (n b : ℕ) (x : SoKey K)
      → IsSentinel less hash blank m g n b
      → so_dummy b < x.so_key
      → StartOk less hash blank m g n x
  IsSentinel-StartOk n b x ((live, inl first), e) lt =
      ((live, inl first), subst (λ a. key_less (so_less less) m.nodes a x ≡ true) (sym first) refl)
  IsSentinel-StartOk n b x ((live, inr (normal, even)), e) lt =
      ((live, inr (normal, even)), normal-key_less less m.nodes n x normal ∙ ground arith)

  -- `bucket` returns.
  begin-Outcome :
      (goal : Goal K V) (n : ℕ) (t : Status (key_set V less))
      → GoalOk less hash blank m g i goal t
      → StartOk less hash blank m g n (regular hash (goal_key goal))
      → Outcome less hash blank i m g present t (m, begin less hash blank goal n, tau)
  begin-Outcome (set_goal k v a) n t (e, own) start =
      silent (retry (set_job k v a n)) t ((e, own, start), tt)
  begin-Outcome (get_goal k) n t w start =
      let (t', track, local) =
        start-Tracks order hash agree blank m g present inv (get_op k) t n tt w start in
      let off : n ≢ 1 = elim start.0.1 [ inl first ↦ λ z. omega arith | inr normal ↦ normal.0.1 ] in
      let on : (n == 1) ≡ false = ground arith in
      rw on (
        no_store order hash agree blank i m g present inv (getting k n) t t' tau
          (track, start.0.0.0, off) local)
  begin-Outcome (del_goal k) n t w start = silent (retry (del_job k n)) t (start, w)

  -- `initBucket` returns the sentinel of bucket `b`.
  done-Outcome :
      (goal : Goal K V) (b n : ℕ) (bs : List ℕ) (t : Status (key_set V less))
      → GoalOk less hash blank m g i goal t
      → PathOk less hash blank m g goal b bs
      → IsSentinel less hash blank m g n b
      → Outcome less hash blank i m g present t (m, init_done less hash blank goal n bs, tau)
  done-Outcome goal b n [] t ok path at =
      begin-Outcome goal n t ok (IsSentinel-StartOk n b (regular hash (goal_key goal)) at path)
  done-Outcome goal b n (c ∷ cs) t ok (before, pos, lt, path) at =
      silent (init_make goal n c cs) t
        (ok, lt, path, IsSentinel-StartOk n b (sentinel blank c) at before)

  init-Outcome :
      (goal : Goal K V) (b : ℕ) (bs : List ℕ) (t : Status (key_set V less)) (o : Option ℕ)
      → GoalOk less hash blank m g i goal t
      → b < 2 ^ 16
      → PathOk less hash blank m g goal b bs
      → m.buckets b ≡ o
      → Outcome less hash blank i m g present t (m, on_init less hash blank goal b bs o, tau)
  init-Outcome goal b bs t (some n) ok lt path e =
      done-Outcome goal b n bs t ok path (inv.sentinels b n e)
  init-Outcome goal b bs t none ok lt path e =
      let pos : 0 < b = elim (Bool-cases (b == 0)) [
        | inl zero_b ↦ let z = sym e ∙ ap m.buckets ((==_iff b 0).0 zero_b) ∙ inv.head_bucket in cc
        | inr more ↦ ground arith
      ] in
      let (p, j, parent, p_lt, lo, hi, at, before) = parent_bucket-before b pos lt in
      subst
        (λ x.
          Outcome less hash blank i m g present t (m, init_parent less hash blank goal b bs x, tau))
        (sym parent)
        (silent (init_load goal p (b ∷ bs)) t (ok, omega arith, (before, pos, lt, path)))

  size-PathOk :
      (goal : Goal K V)
      → (bucket_index (hash (goal_key goal) % 2 ^ 32) m.size < 2 ^ 16)
        × PathOk less hash blank m g goal (bucket_index (hash (goal_key goal) % 2 ^ 32) m.size) []
  size-PathOk goal =
      let (j, lo, hi, at) = inv.size_ok in
      let h = hash (goal_key goal) % 2 ^ 32 in
      subst (λ s. (bucket_index h s < 2 ^ 16) × (so_dummy (bucket_index h s) < so_regular h))
        (sym at)
        (bucket-lt j h hi, (so_dummy-IsLast j h hi (mod-lt (hash (goal_key goal)) (omega arith))).0)

  -- A new node is not the node of `Set`.
  apart :
      (goal : Goal K V) (t : Status (key_set V less))
      → GoalOk less hash blank m g i goal t
      → Apart less hash blank m g goal m.nodes.alloc
  apart (set_goal k v n) t (e, (lt, free, own, mk, key)) = λ z. omega arith
  apart (get_goal k) t ok = tt
  apart (del_goal k) t ok = tt

  pub bucket_access-Outcome :
      (v : V) (p : Pc K V) (t : Status (key_set V less))
      → PcOk less hash blank m g i p t
      → Outcome less hash blank i m g present t (access_bucket less hash blank v m p)
  unfolding access_bucket
  bucket_access-Outcome v (bucket_size goal) t ok =
      let (lt, path) = size-PathOk goal in
      silent (bucket_load goal (bucket_index (hash (goal_key goal) % 2 ^ 32) m.size)) t
        (ok, lt, path)
  bucket_access-Outcome v (bucket_load goal b) t (ok, lt, path) =
      elim (Option-cases (m.buckets b)) [
        | inl nil ↦
            subst
              (λ x.
                Outcome less hash blank i m g present t
                  (m, on_bucket less hash blank goal b x, tau))
              (sym nil) (silent (init_load goal b []) t (ok, lt, path))
        | inr (n, e) ↦
            subst
              (λ x.
                Outcome less hash blank i m g present t
                  (m, on_bucket less hash blank goal b x, tau))
              (sym e)
              (begin-Outcome goal n t ok
                (IsSentinel-StartOk n b (regular hash (goal_key goal)) (inv.sentinels b n e) path))
      ]
  bucket_access-Outcome v (init_load goal b bs) t (ok, lt, path) =
      init-Outcome goal b bs t (m.buckets b) ok lt path refl
  bucket_access-Outcome v (init_make goal s b bs) t (ok, lt, path, start) =
      let m' = make_node less hash blank m (sentinel blank b) v in
      make-Outcome order hash agree blank i m g present inv (sentinel blank b) v
        (retry (init_job goal m.nodes.alloc b bs s)) t t tau
        (λ inv' leaves own. (
          (
            GoalOk-still order hash agree blank i m g present inv m' _ present inv' leaves
                (λ n n_lt free owned mk. (
                  free,
                  update_ne g.past.owner i (λ z. omega arith) ∙ owned,
                  update_ne m.nodes.marked false (λ z. omega arith) ∙ mk,
                ))
                goal t ok,
            own,
            apart goal t ok,
            lt,
            path,
            StartOk-stays order hash agree blank i m g present inv m' _ present inv' leaves s
                (sentinel blank b) start,
          ),
          tt,
        ))
        (stays refl refl refl)
  bucket_access-Outcome v (init_store goal got b bs) t (ok, lt, path, at) =
      bucket-Outcome order hash agree blank i m g present inv b got (init_reload goal b bs) t at
        (λ n e. (ok, lt, path, (n, e)))
  bucket_access-Outcome v (init_reload goal b bs) t (ok, lt, path, (n, e)) =
      subst
        (λ x. Outcome less hash blank i m g present t (m, on_reload less hash blank goal bs x, tau))
        (sym e) (done-Outcome goal b n bs t ok path (inv.sentinels b n e))
  bucket_access-Outcome v p t ok = silent p t ok
