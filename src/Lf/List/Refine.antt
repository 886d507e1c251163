-- ===== src/Lf/List/Refine.antt =====
-- lf/list.go: the list is a linearizable set of keys.
use mathlib.Core.Path.{subst}
use native.Mathlib.Decide.{ℕ_discrete}
use lockfree.Base.{ℕ, ◌≡◌, refl, some, Bool, true, false, List, ◌==◌, ◌||◌, arith}
use lockfree.Base.Less.{Less, IsStrictOrder}
use lockfree.Linear.{call, ret, System, run}
use lockfree.Linear.Spec.{Status, out, called, Abstract, LinRun, unused}
use lockfree.Linear.Simulate.{starts, answers, Simulation, run-LinRun}
use lockfree.Lf.List.{
  ListOp, set_op, get_op, del_op, key_set, Pc, idle, retry, searching, unlinking, unlink_swap,
  set_value, set_node, set_link, set_swap, set_len, get_first, getting, get_value, returning,
  nil_dereference,
}
use lockfree.Lf.List.Memory.{Nodes, new_list}
use lockfree.Lf.List.Access.{start, access, list_machine}
use lockfree.Lf.List.Order.{Before, here, there}
use lockfree.Lf.List.Inv.{Past, Inv, PcOk}
use lockfree.Lf.List.Paths.{Outcome}
use lockfree.Lf.List.Stores.{no_store}
use lockfree.Lf.List.Search.{search-Outcome}
use lockfree.Lf.List.Calls.{set-Outcome, get-Outcome, del-Outcome}

module _ {K V : Type 0} {less : Less K} (order : IsStrictOrder less) (i : ℕ) (m : Nodes K V)
    (g : Past) (keys : K → Bool) (inv : Inv less m g keys) where
  start-PcOk : (op : ListOp K V) → PcOk less m g i (start less op) (called op)
  start-PcOk (set_op k v) = refl
  start-PcOk (get_op k) = refl
  start-PcOk (del_op k) = refl

  pub access-Outcome :
      (op : ListOp K V) (p : Pc K V) (t : Status (key_set V less))
      → PcOk less m g i p t
      → Outcome less i m g keys t (access less i op m p)
  unfolding access
  access-Outcome op idle t ok =
      no_store order i m g keys inv (start less op) t (called op) (call op) (start-PcOk op)
        (starts op refl ok refl refl)
  access-Outcome op (returning b v) t ok =
      no_store order i m g keys inv idle t out (ret b) refl (answers b refl ok refl refl)
  access-Outcome op (retry o) t ok = search-Outcome order i m g keys inv (retry o) t ok
  access-Outcome op (searching o pred curr) t ok =
      search-Outcome order i m g keys inv (searching o pred curr) t ok
  access-Outcome op (unlinking o pred curr succ) t ok =
      search-Outcome order i m g keys inv (unlinking o pred curr succ) t ok
  access-Outcome op (unlink_swap o pred curr succ ver) t ok =
      search-Outcome order i m g keys inv (unlink_swap o pred curr succ ver) t ok
  access-Outcome op (set_value k v curr) t ok =
      set-Outcome order i m g keys inv (set_value k v curr) t ok
  access-Outcome op (set_node k v pred curr) t ok =
      set-Outcome order i m g keys inv (set_node k v pred curr) t ok
  access-Outcome op (set_link k v pred curr n) t ok =
      set-Outcome order i m g keys inv (set_link k v pred curr n) t ok
  access-Outcome op (set_swap k v pred curr n ver) t ok =
      set-Outcome order i m g keys inv (set_swap k v pred curr n ver) t ok
  access-Outcome op set_len t ok = set-Outcome order i m g keys inv set_len t ok
  access-Outcome op (get_first k) t ok = get-Outcome order i m g keys inv (get_first k) t ok
  access-Outcome op (getting k curr) t ok = get-Outcome order i m g keys inv (getting k curr) t ok
  access-Outcome op (get_value k curr) t ok =
      get-Outcome order i m g keys inv (get_value k curr) t ok
  access-Outcome op p t ok = del-Outcome order i m g keys inv p t ok

module _ {K : Type 0} (V : Type 0) {less : Less K} (order : IsStrictOrder less) where
  abbrev pub list_simulation : Simulation (list_machine {V = V} less)
  list_simulation = record {
    Ghost = Past;
    Inv = Inv less;
    PcOk = PcOk less;
    moves = λ i op m g keys p t inv ok. access-Outcome order i m g keys inv op p t ok;
  }

-- A new list, on which nobody has called yet. The sentinels have the zero key and value.
abbrev pub list_at_rest :
    {K V : Type 0} (less : Less K) → K → V → System (list_machine {V = V} less)
list_at_rest less key val = record { mem = new_list key val; pc = λ i. idle }

-- The two sentinels are linked.
abbrev pub sentinels : Past
sentinels = record { linked = λ a. a == 0 || a == 1; owner = λ a. 0 }

pub new_list-Inv :
    {K V : Type 0} (less : Less K) (key : K) (val : V)
    → Inv less (new_list key val) sentinels (λ j. false)
unfolding new_list
new_list-Inv less key val = record {
  first_live = (refl, refl);
  last_live = (refl, refl);
  last_next = refl;
  next_in = λ a h ne.
      let at : 0 ≡ a = ground arith in
      subst
        (λ x.
          (b : ℕ) × ((new_list key val).next x ≡ some b)
          × (sentinels.linked b ≡ true)
          × Before less (new_list key val) x b)
        at (1, refl, refl, refl);
  led = λ a live. elim (ℕ_discrete 0 a) [
    | yes first ↦ here first
    | no ne ↦ let last : 1 ≡ a = ground arith in there 1 refl (here last)
  ];
  fresh = λ a le. ground arith;
  present = λ a x live (n0, n1) same. ground arith;
  held = λ x h. cc;
}

-- A goroutine that has not panicked.
abbrev pub IsSafe : {K V : Type 0} → Pc K V → Type 0
IsSafe nil_dereference = ⊥
IsSafe p = Unit

pub PcOk-IsSafe :
    {K V : Type 0} (less : Less K) (m : Nodes K V) (g : Past) (j : ℕ) (p : Pc K V)
    (t : Status (key_set V less))
    → PcOk less m g j p t
    → IsSafe p
PcOk-IsSafe less m g j nil_dereference t ok = ok
PcOk-IsSafe less m g j p t ok = tt

-- If `less` is a strict order, then under every schedule of any number of goroutines the calls of
-- `Set`, `Get` and `Del` on a new list start and return as those of a set of keys do in which each
-- call takes effect at one moment between its start and its return: `Get` reports whether its key is
-- present, `Del` whether it was there to be removed. Nothing dereferences a nil pointer.
pub list_run-LinRun :
    {K V : Type 0} (less : Less K) (order : IsStrictOrder less) (key : K) (val : V)
    (ts : List (ℕ × ListOp K V))
    → (a : Abstract (key_set V less)) × LinRun
        (key_set V less)
        (unused (key_set V less) (λ j. false))
        (run (list_machine {V = V} less) (list_at_rest less key val) ts).0
        a
      × ((i : ℕ) → IsSafe ((run (list_machine {V = V} less) (list_at_rest less key val) ts).1.pc i))
list_run-LinRun {K} {V} less order key val ts =
    let (g, a, ok, lin) =
      run-LinRun (list_machine {V = V} less) (list_simulation V order) ts
        (list_at_rest less key val) sentinels (unused (key_set V less) (λ j. false))
        (record { inv = new_list-Inv less key val; local = λ i. refl }) in
    (
      a,
      lin,
      λ i.
          PcOk-IsSafe less (run (list_machine {V = V} less) (list_at_rest less key val) ts).1.mem g
            i _ (a.status i) (ok.local i),
    )
