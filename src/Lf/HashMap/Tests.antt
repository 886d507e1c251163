-- ===== src/Lf/HashMap/Tests.antt =====
-- lf/hashmap.go: a run of the hash map, and its theorem at it.
use lockfree.Base.{
  ltb, ℕ, zero, suc, ◌<◌, ◌≡◌, refl, arith, none, some, true, false, List, [], ◌∷◌, ◌++◌,
}
use lockfree.Base.Less.{ltb-IsStrictOrder}
use lockfree.Linear.{Event, tau, call, ret, run, turn}
use lockfree.Linear.Spec.{Abstract, LinRun, unused}
use lockfree.Lf.List.{ListOp, set_op, get_op, del_op, key_set}
use lockfree.Lf.List.Memory.{Nodes, new_list, store_next, len}
use lockfree.Lf.List.Access.{access, access_search, access_set, access_get, access_del}
use lockfree.Lf.HashMap.{bucket, new_hash_map, hash_len, hash_machine, hash_access}
use lockfree.Lf.HashMap.Buckets.{IsConsistent}
use lockfree.Lf.HashMap.Refine.{hash_at_rest, hash_run-LinRun, IsHashSafe}

abbrev same_number : ℕ → ℕ
same_number k = k

same_number-IsConsistent : IsConsistent ltb same_number
same_number-IsConsistent = ground arith

abbrev two_buckets : ℕ → Nodes ℕ ℕ
two_buckets b = new_list 0 0

two_buckets-new : new_hash_map 2 0 0 ≡ some two_buckets
unfolding new_hash_map
two_buckets-new = refl

no_buckets : new_hash_map {K = ℕ} {V = ℕ} 0 0 0 ≡ none
unfolding new_hash_map
no_buckets = refl

-- `k` turns of goroutine `i`.
abbrev goes : ℕ → ℕ → List (ℕ × ListOp ℕ ℕ)
goes i zero = []
goes i (suc k) = (i, get_op 7) ∷ goes i k

-- Keys 5 and 7 are set in one bucket and 4 in the other, by turns; then 5 is deleted, and 7 is found.
abbrev turns : List (ℕ × ListOp ℕ ℕ)
turns =
    (0, set_op 5 50) ∷ (1, set_op 4 40) ∷ goes 0 3
    ++ (goes 1 7
        ++ (goes 0 4 ++ ((2, set_op 7 70) ∷ goes 2 8 ++ ((1, del_op 5) ∷ goes 1 10 ++ goes 0 5))))

abbrev shown : List (ℕ × Event (key_set ℕ ltb)) → List (ℕ × Event (key_set ℕ ltb))
shown [] = []
shown ((i, tau) ∷ es) = shown es
shown ((i, call op) ∷ es) = (i, call op) ∷ shown es
shown ((i, ret r) ∷ es) = (i, ret r) ∷ shown es

shown_bucket_calls :
    shown
      (run (hash_machine ltb same_number 2) (hash_at_rest ltb same_number 2 two_buckets) turns).0
    ≡ (0, call (set_op 5 50))
      ∷ (1, call (set_op 4 40))
      ∷ (1, ret true)
      ∷ (0, ret true)
      ∷ (2, call (set_op 7 70))
      ∷ (2, ret true)
      ∷ (1, call (del_op 5))
      ∷ (1, ret true)
      ∷ (0, call (get_op 7))
      ∷ (0, ret true)
      ∷ []
unfolding run turn hash_access access access_search access_set access_get access_del new_list
    store_next
shown_bucket_calls = refl

left_in_buckets :
    hash_len 2
      (run
        (hash_machine ltb same_number 2)
        (hash_at_rest ltb same_number 2 two_buckets)
        turns).1.mem
    ≡ 2
unfolding run turn hash_access access access_search access_set access_get access_del new_list
    store_next hash_len len
left_in_buckets = refl

hash_run-LinRun_example :
    (a : Abstract (key_set ℕ ltb)) × LinRun
      (key_set ℕ ltb)
      (unused (key_set ℕ ltb) (λ j. false))
      (run
        (hash_machine {V = ℕ} ltb same_number 2)
        (hash_at_rest ltb same_number 2 two_buckets)
        turns).0
      a
    × ((i : ℕ)
        → IsHashSafe (
            (run
                (hash_machine {V = ℕ} ltb same_number 2)
                (hash_at_rest ltb same_number 2 two_buckets)
                turns).1.pc
              i))
    × ((k : ℕ) → bucket same_number 2 k < 2)
hash_run-LinRun_example =
    hash_run-LinRun ltb ltb-IsStrictOrder same_number same_number-IsConsistent 2 0 0 two_buckets
      two_buckets-new turns
