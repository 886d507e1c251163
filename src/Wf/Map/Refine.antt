-- ===== src/Wf/Map/Refine.antt =====
-- wf/map.go: the wait-free map behaves as one ordered list of entries on which operations set, get
-- and delete one at a time.
use lockfree.Base.{ℕ, ◌≡◌, refl, ap, ◌∙◌, Option, none, some, List, []}
use lockfree.Base.Less.{Less, IsStrictOrder}
use lockfree.Wf.Avl.{leaf}
use lockfree.Wf.Avl.Balance.{inorder, IsAvl}
use lockfree.Wf.MapTree.{MapTree}
use lockfree.Wf.MapTree.SortedList.{lookup, insert, delete, IsOrdered}
use lockfree.Wf.MapTree.Refine.{map_lookup-eq-lookup, map_insert-Grown, map_delete-Shrunk}
use lockfree.Wf.MapTree.Laws.{insert-IsOrdered, delete-IsOrdered}
use lockfree.Wf.Universal.{Turn}
use lockfree.Wf.Universal.Linearizable.{at_rest}
use lockfree.Linear.Spec.{Abstract, LinRun, unused}
use lockfree.Wf.Universal.Spec.{Spec, abstract, history}
use lockfree.Wf.Universal.Refine.{IsSafe, universal_run-LinRun}
use lockfree.Wf.Map.{MapOp, map_set, map_get, map_del, map_apply_op, map_object, map_run, MapResult}

module _ {K V : Type 0} {less : Less K} (order : IsStrictOrder less) where
  -- interfaces.go, `Map`: the operations on the list of entries in key order.
  unfoldable pub entries_apply_op : MapOp K V → List (K × V) → List (K × V) × Option V
  entries_apply_op (map_set key val) xs = (insert less xs key val, none)
  entries_apply_op (map_get key) xs = (xs, lookup less xs key)
  entries_apply_op (map_del key) xs = (delete less xs key, lookup less xs key)

  -- No operation has panicked; the tree is balanced and holds these entries, in strict key order.
  abbrev pub HoldsEntries : Option (MapTree K V) → List (K × V) → Type 0
  HoldsEntries s xs =
      (t : MapTree K V) × (s ≡ some t) × IsAvl t × (inorder t ≡ xs) × IsOrdered less xs

  -- On a balanced search tree every operation leaves a balanced search tree of the entries that the
  -- map's operation on the entries leaves, with the same response, and does not panic.
  pub map_apply_op-HoldsEntries :
      (op : MapOp K V) (s : Option (MapTree K V)) (xs : List (K × V))
      → HoldsEntries s xs
      → HoldsEntries (map_apply_op less op s).0 (entries_apply_op op xs).0
        × ((map_apply_op less op s).1 ≡ (entries_apply_op op xs).1)
  unfolding map_apply_op entries_apply_op
  map_apply_op-HoldsEntries (map_set key val) s xs (t, e, avl, in_order, ordered) =
      let (u, done, g) = map_insert-Grown order t key val avl (rw in_order ordered) in
      let o = insert-IsOrdered order xs key val ordered in
      rw e (
        (u, done, g.avl, g.same ∙ ap (λ (ys : List (K × V)). insert less ys key val) in_order, o),
        refl,
      )
  map_apply_op-HoldsEntries (map_get key) s xs (t, e, avl, in_order, ordered) =
      let found = map_lookup-eq-lookup order t key (rw in_order ordered) in
      rw e (
        (t, refl, avl, in_order, ordered),
        found ∙ ap (λ (ys : List (K × V)). lookup less ys key) in_order,
      )
  map_apply_op-HoldsEntries (map_del key) s xs (t, e, avl, in_order, ordered) =
      let (u, done, g) = map_delete-Shrunk order t key avl (rw in_order ordered) in
      let o = delete-IsOrdered order xs key ordered in
      rw e (
        rw (done, map_apply_op)
          (
            (u, refl, g.avl, g.same ∙ ap (λ (ys : List (K × V)). delete less ys key) in_order, o),
            ap (λ (ys : List (K × V)). lookup less ys key) in_order,
          ))

  module _ (zero_key : K) (zero_val : V) where
    abbrev pub map_spec : Spec (map_object less zero_key zero_val)
    map_spec = record {
      Abstract = List (K × V);
      start = [];
      apply_op = entries_apply_op;
      Relates = HoldsEntries;
      start-Relates = (leaf, refl, tt, refl, tt);
      apply-Relates = map_apply_op-HoldsEntries;
    }

    -- For a strict order of the keys, under every schedule of the participants' accesses, the calls
    -- start and return as those of an ordered list of entries do, starting from the empty list, on which
    -- operations set, get and delete, in which each call takes effect at one moment between its start
    -- and its return. Every tree that is stored as a result is balanced and holds the entries of such a
    -- list, in strict key order, and nothing panics on a nil pointer.
    pub map_run-LinRun :
        (n : ℕ) (ts : List (ℕ × Turn (map_object less zero_key zero_val)))
        → (a : Abstract (abstract map_spec)) × LinRun
            (abstract map_spec)
            (unused (abstract map_spec) [])
            (history map_spec n (at_rest (map_object less zero_key zero_val)) ts)
            a
          × ((i : ℕ)
              → IsSafe map_spec (
                  (map_run less zero_key zero_val n
                      (at_rest (map_object less zero_key zero_val))
                      ts).pc
                    i))
          × ((b : ℕ) (r : MapResult less zero_key zero_val)
              → (map_run less zero_key zero_val n
                    (at_rest (map_object less zero_key zero_val))
                    ts).mem.res
                  b
                ≡ some r
              → (xs : List (K × V)) × HoldsEntries r.0 xs)
    map_run-LinRun n ts = universal_run-LinRun map_spec n ts
