-- ===== src/Lf/SplitHashMap/Refine.antt =====
-- lf/splithashmap.go: the table is a linearizable set of keys.
use mathlib.Core.Path.{subst}
use lockfree.Base.{
  ℕ, ◌≡◌, inl, refl, sym, ap, ◌∙◌, none, some, update_ne, Bool, true, false, List, arith,
}
use native.Mathlib.Decide.{ℕ_discrete}
use lockfree.Base.Less.{Less, IsStrictOrder}
use lockfree.Linear.{call, ret, System, run}
use lockfree.Linear.Spec.{Status, out, called, Abstract, LinRun, unused}
use lockfree.Linear.Simulate.{starts, answers, Simulation, run-LinRun}
use lockfree.Lf.List.{ListOp, set_op, get_op, del_op, key_set}
use lockfree.Lf.List.Memory.{new_list}
use lockfree.Lf.List.Paths.{some_inj}
use lockfree.Lf.List.Refine.{sentinels, new_list-Inv}
use lockfree.Lf.SplitHashMap.{so_dummy}
use lockfree.Lf.SplitHashMap.Memory.{Split, regular, sentinel, so_less, new_split}
use lockfree.Lf.SplitHashMap.Access.{
  set_goal, get_goal, del_goal, Pc, idle, bucket_size, bucket_load, init_load, init_make,
  init_store, init_reload, set_value, set_count, set_size, set_grow, getting, get_value, del_next,
  del_mark, del_swap, del_value, del_unlink, del_unlink_swap, del_len, returning, nil_dereference,
}
use lockfree.Lf.SplitHashMap.Access.Calls.{start, access, split_machine}
use lockfree.Lf.SplitHashMap.Inv.{Known, SplitInv, PcOk}
use lockfree.Lf.SplitHashMap.Stores.{Outcome, no_store, make-Outcome}
use lockfree.Lf.SplitHashMap.Accesses.{search-Outcome}
use lockfree.Lf.SplitHashMap.Buckets.{bucket_access-Outcome}
use lockfree.Lf.SplitHashMap.Calls.{set-Outcome}
use lockfree.Lf.SplitHashMap.Gets.{get-Outcome}
use lockfree.Lf.SplitHashMap.Deletes.{del-Outcome}

module _ {K V : Type 0} {less : Less K} (order : IsStrictOrder less) (hash : K → ℕ)
    (agree : (x y : K) → less x y ≡ false → less y x ≡ false → hash x ≡ hash y) (blank : K) (i : ℕ)
    (m : Split K V) (g : Known K) (present : K → Bool)
    (inv : SplitInv less hash blank m g present) where
  start-Outcome :
      (op : ListOp K V) (t : Status (key_set V less))
      → t ≡ out
      → Outcome less hash blank i m g present t (start less hash blank op m)
  unfolding start
  start-Outcome (set_op k v) t ok =
      make-Outcome order hash agree blank i m g present inv (regular hash k) v
        (bucket_size (set_goal k v m.nodes.alloc)) t (called (set_op k v)) (call (set_op k v))
        (λ inv' leaves own. (refl, own)) (starts (set_op k v) refl ok refl refl)
  start-Outcome (get_op k) t ok =
      no_store order hash agree blank i m g present inv (bucket_size (get_goal k)) t
        (called (get_op k)) (call (get_op k)) refl (starts (get_op k) refl ok refl refl)
  start-Outcome (del_op k) t ok =
      no_store order hash agree blank i m g present inv (bucket_size (del_goal k)) t
        (called (del_op k)) (call (del_op k)) refl (starts (del_op k) refl ok refl refl)

  pub access-Outcome :
      (v : V) (op : ListOp K V) (p : Pc K V) (t : Status (key_set V less))
      → PcOk less hash blank m g i p t
      → Outcome less hash blank i m g present t (access less hash blank v i op m p)
  unfolding access
  access-Outcome v op idle t ok = start-Outcome op t ok
  access-Outcome v op (returning b r) t ok =
      no_store order hash agree blank i m g present inv idle t out (ret b) refl
        (answers b refl ok refl refl)
  access-Outcome v op (bucket_size goal) t ok =
      bucket_access-Outcome order hash agree blank i m g present inv v (bucket_size goal) t ok
  access-Outcome v op (bucket_load goal b) t ok =
      bucket_access-Outcome order hash agree blank i m g present inv v (bucket_load goal b) t ok
  access-Outcome v op (init_load goal b bs) t ok =
      bucket_access-Outcome order hash agree blank i m g present inv v (init_load goal b bs) t ok
  access-Outcome v op (init_make goal s b bs) t ok =
      bucket_access-Outcome order hash agree blank i m g present inv v (init_make goal s b bs) t ok
  access-Outcome v op (init_store goal n b bs) t ok =
      bucket_access-Outcome order hash agree blank i m g present inv v (init_store goal n b bs) t ok
  access-Outcome v op (init_reload goal b bs) t ok =
      bucket_access-Outcome order hash agree blank i m g present inv v (init_reload goal b bs) t ok
  access-Outcome v op (set_value k w curr) t ok =
      set-Outcome order hash agree blank i m g present inv (set_value k w curr) t ok
  access-Outcome v op set_count t ok =
      set-Outcome order hash agree blank i m g present inv set_count t ok
  access-Outcome v op (set_size c) t ok =
      set-Outcome order hash agree blank i m g present inv (set_size c) t ok
  access-Outcome v op (set_grow c csize) t ok =
      set-Outcome order hash agree blank i m g present inv (set_grow c csize) t ok
  access-Outcome v op (getting k curr) t ok =
      get-Outcome order hash agree blank i m g present inv (getting k curr) t ok
  access-Outcome v op (get_value k curr) t ok =
      get-Outcome order hash agree blank i m g present inv (get_value k curr) t ok
  access-Outcome v op (del_next k s pred curr) t ok =
      del-Outcome order hash agree blank i m g present inv (del_next k s pred curr) t ok
  access-Outcome v op (del_mark k s pred curr succ) t ok =
      del-Outcome order hash agree blank i m g present inv (del_mark k s pred curr succ) t ok
  access-Outcome v op (del_swap k s pred curr succ ver) t ok =
      del-Outcome order hash agree blank i m g present inv (del_swap k s pred curr succ ver) t ok
  access-Outcome v op (del_value pred curr succ) t ok =
      del-Outcome order hash agree blank i m g present inv (del_value pred curr succ) t ok
  access-Outcome v op (del_unlink pred curr succ w) t ok =
      del-Outcome order hash agree blank i m g present inv (del_unlink pred curr succ w) t ok
  access-Outcome v op (del_unlink_swap pred curr succ ver w) t ok =
      del-Outcome order hash agree blank i m g present inv (del_unlink_swap pred curr succ ver w) t
        ok
  access-Outcome v op (del_len w) t ok =
      del-Outcome order hash agree blank i m g present inv (del_len w) t ok
  access-Outcome v op p t ok = search-Outcome order hash agree blank i m g present inv p t ok

-- A new table, on which nobody has called yet.
abbrev pub split_at_rest :
    {K V : Type 0} (less : Less K) (hash : K → ℕ) (blank : K) (v : V)
    → System (split_machine less hash blank v)
split_at_rest less hash blank v = record { mem = new_split blank v; pc = λ i. idle }

abbrev pub no_elements : (K : Type 0) → Known K
no_elements K = record { past = sentinels; keys = λ x. false }

-- The head is the sentinel of bucket 0, and the only node but the nil pointer.
new_split-SplitInv :
    {K V : Type 0} (less : Less K) (hash : K → ℕ) (blank : K) (v : V)
    → SplitInv less hash blank (new_split blank v) (no_elements K) (λ j. false)
unfolding new_split new_list
new_split-SplitInv {K} less hash blank v = record {
  list = new_list-Inv (so_less less) (sentinel blank 0) v;
  are_elements = refl;
  well = λ a h (n0, n1). ground arith;
  head_key = refl;
  head_bucket = refl;
  sentinels = λ b n e. elim (ℕ_discrete 0 b) [
    | yes first ↦
        let at : 0 ≡ n = some_inj (ap (new_split blank v).buckets first ∙ e) in
        (((subst (λ a. sentinels.linked a ≡ true) at refl, refl), inl (sym at)), ap so_dummy first)
    | no ne ↦
        let nil : (new_split blank v).buckets b ≡ none = update_ne (λ c. none) (some 0) ne in
        let z = sym nil ∙ e in ground arith
  ];
  size_ok = (1, omega arith, omega arith, refl);
}

module _ {K V : Type 0} {less : Less K} (order : IsStrictOrder less) (hash : K → ℕ)
    (agree : (x y : K) → less x y ≡ false → less y x ≡ false → hash x ≡ hash y) (blank : K)
    (v : V) where
  abbrev split_simulation : Simulation (split_machine less hash blank v)
  split_simulation = record {
    Ghost = Known K;
    Inv = SplitInv less hash blank;
    PcOk = PcOk less hash blank;
    moves = λ i op m g present p t inv ok.
        access-Outcome order hash agree blank i m g present inv v op p t ok;
  }

-- A goroutine that has not panicked.
abbrev pub IsSafe : {K V : Type 0} → Pc K V → Type 0
IsSafe nil_dereference = ⊥
IsSafe p = Unit

PcOk-IsSafe :
    {K V : Type 0} (less : Less K) (hash : K → ℕ) (blank : K) (m : Split K V) (g : Known K) (j : ℕ)
    (p : Pc K V) (t : Status (key_set V less))
    → PcOk less hash blank m g j p t
    → IsSafe p
PcOk-IsSafe less hash blank m g j nil_dereference t ok = ok
PcOk-IsSafe less hash blank m g j p t ok = tt

-- If `less` is a strict order, and `hash` gives keys that it does not tell apart the same hash, then
-- under every schedule of any number of goroutines the calls of `Set`, `Get` and `Del` on a new table
-- start and return as those of a set of keys do in which each call takes effect at one moment between
-- its start and its return, whatever buckets they make sentinels for and however often the table is
-- doubled meanwhile. Nothing dereferences a nil pointer.
pub split_run-LinRun :
    {K V : Type 0} (less : Less K) (order : IsStrictOrder less) (hash : K → ℕ)
    (agree : (x y : K) → less x y ≡ false → less y x ≡ false → hash x ≡ hash y) (blank : K) (v : V)
    (ts : List (ℕ × ListOp K V))
    → (a : Abstract (key_set V less)) × LinRun
        (key_set V less)
        (unused (key_set V less) (λ j. false))
        (run (split_machine less hash blank v) (split_at_rest less hash blank v) ts).0
        a
      × ((i : ℕ)
          → IsSafe
              ((run (split_machine less hash blank v) (split_at_rest less hash blank v) ts).1.pc i))
split_run-LinRun {K} {V} less order hash agree blank v ts =
    let (g, a, ok, lin) =
      run-LinRun (split_machine less hash blank v) (split_simulation order hash agree blank v) ts
        (split_at_rest less hash blank v) (no_elements K) (unused (key_set V less) (λ j. false))
        (record { inv = new_split-SplitInv less hash blank v; local = λ i. refl }) in
    (
      a,
      lin,
      λ i.
          PcOk-IsSafe less hash blank
            (run (split_machine less hash blank v) (split_at_rest less hash blank v) ts).1.mem g i _
            (a.status i) (ok.local i),
    )
