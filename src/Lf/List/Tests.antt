-- ===== src/Lf/List/Tests.antt =====
-- lf/list.go: a run of the list, and its theorem at it.
use lockfree.Base.{ltb, ℕ, zero, suc, ◌≡◌, refl, true, false, List, [], ◌∷◌, ◌++◌}
use lockfree.Base.Less.{ltb-IsStrictOrder}
use lockfree.Linear.{Event, tau, call, ret, run, turn}
use lockfree.Linear.Spec.{Abstract, LinRun, unused}
use lockfree.Lf.List.{ListOp, set_op, get_op, del_op, key_set}
use lockfree.Lf.List.Memory.{new_list, store_next}
use lockfree.Lf.List.Access.{
  list_machine, access, access_search, access_set, access_get, access_del,
}
use lockfree.Lf.List.Refine.{list_at_rest, list_run-LinRun, IsSafe}

-- `k` turns of goroutine `i`, and `k` turns of both of the first two.
abbrev goes : ℕ → ℕ → List (ℕ × ListOp ℕ ℕ)
goes i zero = []
goes i (suc k) = (i, get_op 5) ∷ goes i k

abbrev go_both : ℕ → List (ℕ × ListOp ℕ ℕ)
go_both zero = []
go_both (suc k) = (0, get_op 0) ∷ (1, get_op 0) ∷ go_both k

-- Two goroutines set 5 and 3 at once; the one that comes second has to retry. Then a third deletes 5
-- and looks for it, and one finds 3.
abbrev turns : List (ℕ × ListOp ℕ ℕ)
turns =
    (0, set_op 5 50) ∷ (1, set_op 3 30) ∷ go_both 5
    ++ (goes 0 2
        ++ (goes 1 7 ++ ((2, del_op 5) ∷ goes 2 12 ++ (goes 2 4 ++ ((0, get_op 3) ∷ goes 0 4)))))

abbrev shown : List (ℕ × Event (key_set ℕ ltb)) → List (ℕ × Event (key_set ℕ ltb))
shown [] = []
shown ((i, tau) ∷ es) = shown es
shown ((i, call op) ∷ es) = (i, call op) ∷ shown es
shown ((i, ret r) ∷ es) = (i, ret r) ∷ shown es

shown_calls :
    shown (run (list_machine ltb) (list_at_rest ltb 0 0) turns).0
    ≡ (0, call (set_op 5 50))
      ∷ (1, call (set_op 3 30))
      ∷ (0, ret true)
      ∷ (1, ret true)
      ∷ (2, call (del_op 5))
      ∷ (2, ret true)
      ∷ (2, call (get_op 5))
      ∷ (2, ret false)
      ∷ (0, call (get_op 3))
      ∷ (0, ret true)
      ∷ []
unfolding run turn access access_search access_set access_get access_del new_list store_next
shown_calls = refl

list_run-LinRun_example :
    (a : Abstract (key_set ℕ ltb)) × LinRun
      (key_set ℕ ltb)
      (unused (key_set ℕ ltb) (λ j. false))
      (run (list_machine ltb) (list_at_rest ltb 0 0) turns).0
      a
    × ((i : ℕ) → IsSafe ((run (list_machine {V = ℕ} ltb) (list_at_rest ltb 0 0) turns).1.pc i))
list_run-LinRun_example = list_run-LinRun ltb ltb-IsStrictOrder 0 0 turns
