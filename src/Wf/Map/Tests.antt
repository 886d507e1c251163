-- ===== src/Wf/Map/Tests.antt =====
-- wf/map.go: a run of the wait-free map, and its theorem at it.
use lockfree.Base.{ℕ, zero, suc, ◌≡◌, refl, some, List, [], ◌∷◌, ◌++◌, ltb}
use lockfree.Base.Less.{ltb-IsStrictOrder}
use lockfree.Wf.Avl.{leaf, mk, taller}
use lockfree.Wf.MapTree.{map_insert, map_lookup}
use lockfree.Wf.Universal.{
  Object, Turn, registers, starts, scans, links, publishes, finishes, returned,
}
use lockfree.Wf.Universal.Access.{
  run, step, new, register, start, scan, link, publish, finish, access,
}
use lockfree.Wf.Universal.Linearizable.{at_rest}
use lockfree.Linear.Spec.{Abstract, LinRun, unused}
use lockfree.Wf.Universal.Spec.{Spec, abstract, history}
use lockfree.Wf.Universal.Refine.{IsSafe}
use lockfree.Wf.Map.{map_set, map_get, map_apply_op, map_object, map_run, MapResult}
use lockfree.Wf.Map.Refine.{map_spec, HoldsEntries, map_run-LinRun}

abbrev map : Object
map = map_object {K = ℕ} {V = ℕ} ltb 0 0

abbrev goes : ℕ → ℕ → List (ℕ × Turn map)
goes i zero = []
goes i (suc k) = (i, scans) ∷ (i, links) ∷ (i, publishes) ∷ (i, finishes) ∷ goes i k

-- One participant of two sets 3 to 30 and gets it.
abbrev turns : List (ℕ × Turn map)
turns =
    (0, registers)
      ∷ (0, registers)
      ∷ (0, registers)
      ∷ (0, registers)
      ∷ (0, starts (map_set 3 30))
      ∷ goes 0 25
    ++ ((0, starts (map_get 3)) ∷ goes 0 25)

got :
    (map_run {K = ℕ} {V = ℕ} ltb 0 0 2 (at_rest map) turns).pc 0
    ≡ returned 2 (some (mk (3, 30) leaf leaf), some 30)
unfolding run step access register start scan link publish finish at_rest new map_apply_op
    map_insert map_lookup taller
got = refl

abbrev spec : Spec map
spec = map_spec ltb-IsStrictOrder 0 0

map_run-LinRun_example :
    (a : Abstract (abstract spec)) × LinRun
      (abstract spec)
      (unused (abstract spec) [])
      (history spec 2 (at_rest map) turns)
      a
    × ((i : ℕ) → IsSafe spec ((map_run {K = ℕ} {V = ℕ} ltb 0 0 2 (at_rest map) turns).pc i))
    × ((b : ℕ) (r : MapResult {K = ℕ} {V = ℕ} ltb 0 0)
        → (map_run {K = ℕ} {V = ℕ} ltb 0 0 2 (at_rest map) turns).mem.res b ≡ some r
        → (xs : List (ℕ × ℕ)) × HoldsEntries ltb-IsStrictOrder r.0 xs)
map_run-LinRun_example = map_run-LinRun {K = ℕ} {V = ℕ} ltb-IsStrictOrder 0 0 2 turns
