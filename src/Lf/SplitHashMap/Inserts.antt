-- ===== src/Lf/SplitHashMap/Inserts.antt =====
-- lf/splithashmap.go: the compare-and-swap of `listInsert` keeps what holds of the table.
use mathlib.Core.Path.{subst}
use lockfree.Base.{
  ℕ, ◌%◌, ◌≡◌, inr, refl, sym, ap, ◌∙◌, some, Bool, true, false, arith, if◌then◌else◌, ◌||◌, update,
  update_self, update_ne,
}
use lockfree.Base.Less.{Less, IsStrictOrder}
use lockfree.Linear.{tau}
use lockfree.Linear.Spec.{Status, done, Waits}
use lockfree.Linear.Simulate.{stays, commits}
use lockfree.Lf.List.{set_op, key_set, keys_apply_op}
use lockfree.Lf.List.Memory.{store_next}
use lockfree.Lf.SplitHashMap.Sentinels.{so_dummy-even}
use lockfree.Lf.SplitHashMap.Memory.{SoKey, Split, regular, sentinel, so_less}
use lockfree.Lf.SplitHashMap.Keys.{
  elements, regular-IsWell, sentinel-IsWell, set-elements, init-elements,
}
use lockfree.Lf.SplitHashMap.Access.{
  Goal, set_goal, get_goal, del_goal, Job, set_job, del_job, init_job, init_store, set_count,
}
use lockfree.Lf.SplitHashMap.Access.Search.{job_node, inserted}
use lockfree.Lf.SplitHashMap.Inv.{Known, SplitInv, GoalOk, PlaceOk, Leaves, Apart}
use lockfree.Lf.SplitHashMap.Stores.{Outcome}
use lockfree.Lf.SplitHashMap.Links.{insert-Outcome}

module _ {K V : Type 0} {less : Less K} (order : IsStrictOrder less) (hash : K → ℕ)
    (agree : (x y : K) → less x y ≡ false → less y x ≡ false → hash x ≡ hash y) (blank : K) (i : ℕ)
    (m : Split K V) (g : Known K) (present : K → Bool)
    (inv : SplitInv less hash blank m g present) where
  -- The node of `Set` is still its own when the sentinel `d` of a bucket is linked.
  goal-inserted :
      (goal : Goal K V) (d : ℕ) (keys' : SoKey K → Bool) (t : Status (key_set V less))
      (m' : Split K V)
      → (let g' : Known K = record {
        past = record g.past { linked = update g.past.linked d true };
        keys = keys';
      } in
          Leaves less hash blank m g i m' g'
          → ((a : ℕ) → m.nodes.marked a ≡ false → m'.nodes.marked a ≡ false)
          → Apart less hash blank m g goal d
          → GoalOk less hash blank m g i goal t
          → GoalOk less hash blank m' g' i goal t)
  goal-inserted (set_goal k v n) d keys' t m' leaves still apart (e, (lt, free, own, mk, key)) =
      let le = leaves.keeps.alloc_le in
      (
        e,
        (
          omega arith,
          update_ne g.past.linked true (λ z. apart (sym z)) ∙ free,
          own,
          still n mk,
          leaves.keeps.key_stays n lt ∙ key,
        ),
      )
  goal-inserted (get_goal k) d keys' t m' leaves still apart ok = ok
  goal-inserted (del_goal k) d keys' t m' leaves still apart ok = ok

  -- `listInsert` inserts the node of its job.
  pub link_swap-Outcome :
      (j : Job K V) (pred curr : ℕ) (t : Status (key_set V less))
      → PlaceOk less hash blank m g i j t pred curr
      → m.nodes.next (job_node less hash blank j) ≡ some curr
      → m.nodes.next pred ≡ some curr
      → m.nodes.marked pred ≡ false
      → Outcome less hash blank i m g present t (
        record m { nodes = store_next m.nodes pred (some (job_node less hash blank j)) false },
        inserted less hash blank j,
        tau,
      )
  link_swap-Outcome (set_job k v n s) pred curr t (ok, ins, l, b) nx e mk =
      let keys' : SoKey K → Bool = λ x.
        if so_less less x (regular hash k) || so_less less (regular hash k) x
        then g.keys x
        else true in
      insert-Outcome order hash agree blank i m g present inv (regular hash k) pred curr n l b ok.1
        nx e mk set_count t (done true) (elements hash keys') (regular-IsWell hash blank k) refl
        (λ inv' leaves still. refl)
        (commits (set_op k v) true refl
          (subst (λ u. Waits (key_set V less) u (set_op k v)) (sym ok.0) refl)
          (ap (λ (x : K → Bool). keys_apply_op V less (set_op k v) x) inv.are_elements
            ∙ set-elements V less hash agree k v g.keys)
          refl)
  link_swap-Outcome (del_job k s) pred curr t (ok, ins, l, b) nx e mk = absurd ins
  link_swap-Outcome (init_job goal d c bs s) pred curr t
        ((k, own, apart, lt, path, start), ins, l, b) nx e mk =
      let (d_lt, free, owned, unmarked, key) = own in
      let even = so_dummy-even c lt in
      let keys' : SoKey K → Bool = λ x.
        if so_less less x (sentinel blank c) || so_less less (sentinel blank c) x
        then g.keys x
        else true in
      insert-Outcome order hash agree blank i m g present inv (sentinel blank c) pred curr d l b own
        nx e mk (init_store goal d c bs) t t present (sentinel-IsWell hash blank c lt)
        (inv.are_elements ∙ init-elements less hash (sentinel blank c) g.keys even)
        (λ inv' leaves still.
          let key' = leaves.keeps.key_stays d d_lt ∙ key in
          (
            goal-inserted goal d keys' t
                (record m { nodes = store_next m.nodes pred (some d) false }) leaves still apart k,
            lt,
            path,
            (
              (
                (update_self g.past.linked d true, still d unmarked),
                inr (
                  (
                    λ z. let w = sym free ∙ ap g.past.linked z ∙ inv.list.first_live.0 in cc,
                    λ z. let w = sym free ∙ ap g.past.linked z ∙ inv.list.last_live.0 in cc,
                  ),
                  ap (λ (x : SoKey K). x.so_key % 2) key' ∙ even,
                ),
              ),
              ap (λ (x : SoKey K). x.so_key) key',
            ),
          ))
        (stays refl refl refl)
