-- ===== src/Wf/Map.antt =====
-- wf/map.go: the wait-free map, the universal construction over the persistent search tree.
pub mod Refine
mod Tests
use lockfree.Base.{ℕ, Option, none, some, List, ◌+◌}
use lockfree.Base.Less.{Less}
use lockfree.Wf.Avl.{leaf}
use lockfree.Wf.MapTree.{MapTree, map_insert, map_lookup, map_delete}
use lockfree.Wf.Universal.{Object, Mem, Result, Pc, Turn, System}
use lockfree.Wf.Universal.Access.{new, register, start, scan, link, publish, finish, access, run}

-- `mapOp`, with the arguments that the operation has.
pub data MapOp (K V : Type 0) : Type 0 where
  map_set : K → V → MapOp K V
  map_get : K → MapOp K V
  map_del : K → MapOp K V

module _ {K V : Type 0} (less : Less K) where
  -- The switch of `publish`. The state is `none` behind an operation that panics, and the response is
  -- `none` for `(zero, false)`.
  unfoldable pub map_apply_op : MapOp K V → Option (MapTree K V) → Option (MapTree K V) × Option V
  map_apply_op op none = (none, none)
  map_apply_op (map_set key val) (some t) = (map_insert less t key val, none)
  map_apply_op (map_get key) (some t) = (some t, map_lookup less t key)
  map_apply_op (map_del key) (some t) = elim (map_delete less t key) [
    | none ↦ (none, none)
    | some (root, v) ↦ (some root, v)
  ]

  -- `zero_key` and `zero_val` are the zero values of `K` and `V`, which the sentinel has.
  module _ (zero_key : K) (zero_val : V) where
    abbrev pub map_object : Object
    map_object = record {
      State = Option (MapTree K V);
      Op = MapOp K V;
      Response = Option V;
      initial = some leaf;
      apply_op = map_apply_op;
      zero_op = map_set zero_key zero_val;
      zero_response = none;
    }

    -- The construction is the stack's, with the map's nodes.
    abbrev pub MapResult : Type 0
    MapResult = Result map_object

    -- The nodes and the structure.
    abbrev pub MapMem : Type 0
    MapMem = Mem map_object

    abbrev pub new_map : Mem map_object
    new_map = new map_object

    module _ (n tid : ℕ) (m : Mem map_object) where
      abbrev pub map_handle : Pc map_object → Mem map_object × Pc map_object
      map_handle = register map_object n tid m

      -- `Set`, `Get` and `Del` each start `apply` with their operation; the
      -- response is the second part of the result that it returns.
      abbrev pub map_start : MapOp K V → Mem map_object × Pc map_object
      map_start op = start map_object n tid op m

      abbrev pub map_max_frontier : Pc map_object → Mem map_object × Pc map_object
      map_max_frontier = scan map_object n tid m

      abbrev pub map_link : Pc map_object → Mem map_object × Pc map_object
      map_link = link map_object n tid m

      abbrev pub map_publish : Pc map_object → Mem map_object × Pc map_object
      map_publish = publish map_object n tid m

      abbrev pub map_finish : Pc map_object → Mem map_object × Pc map_object
      map_finish = finish map_object n tid m

      -- The whole of `apply`.
      abbrev pub map_access : Turn map_object → Pc map_object → Mem map_object × Pc map_object
      map_access t p = access map_object n tid t m p

    abbrev pub map_run : ℕ → System map_object → List (ℕ × Turn map_object) → System map_object
    map_run = run map_object
