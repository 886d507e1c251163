-- ===== src/Lf/SplitHashMap/Tests.antt =====
-- lf/splithashmap.go: split-order keys of a few hashes, and the theorems at them.
use lockfree.Base.{
  ◌↔◌, All, get_elem?, ℕ, zero, suc, ltb, true, false, ◌++◌, ◌^◌, ◌≤◌, ◌<◌, ◌≡◌, refl, some, List,
  [], ◌∷◌, arith,
}
use lockfree.Base.Less.{ltb-IsStrictOrder}
use lockfree.Linear.{Event, tau, call, ret, run, turn}
use lockfree.Linear.Spec.{Abstract, LinRun, unused}
use lockfree.Lf.List.{ListOp, set_op, get_op, del_op, key_set}
use lockfree.Lf.List.Memory.{store_next}
use lockfree.Lf.SplitHashMap.Memory.{new_split}
use lockfree.Lf.SplitHashMap.Access.{access_bucket}
use lockfree.Lf.SplitHashMap.Access.Search.{access_search}
use lockfree.Lf.SplitHashMap.Access.Calls.{
  split_machine, access_set, access_get, access_del, start, access,
}
use lockfree.Lf.SplitHashMap.Segments.{pointing, seg_run, seg_access, seg_at_rest}
use lockfree.Lf.SplitHashMap.Segments.Slots.{IsReached, seg_run_agrees}
use lockfree.Lf.SplitHashMap.Refine.{split_at_rest, IsSafe, split_run-LinRun}
use lockfree.Lf.SplitHashMap.{
  reverse_bits, len_bits, so_regular, so_dummy, parent_bucket, bucket_index, grow,
}
use lockfree.Lf.SplitHashMap.Sentinels.{so_dummy-IsLast, parent_bucket-before}
use lockfree.Lf.SplitHashMap.Size.{IsSize, sizes, sizes-IsSize}

reverse-one : reverse_bits 32 1 ≡ 2147483648
unfolding reverse_bits
reverse-one = refl

so_regular-six : so_regular 6 ≡ 1610612737
unfolding so_regular reverse_bits
so_regular-six = refl

parent-of_six : parent_bucket 6 ≡ some 2
unfolding parent_bucket len_bits
parent-of_six = refl

-- Hash 6 in a table of 4 buckets, in bucket 2.
so_dummy-IsLast_example :
    (so_dummy (bucket_index 6 (2 ^ 2)) < so_regular 6)
    × ((c : ℕ)
        → c < 2 ^ 2
        → so_dummy c < so_regular 6
        → so_dummy c ≤ so_dummy (bucket_index 6 (2 ^ 2)))
so_dummy-IsLast_example = so_dummy-IsLast 2 6 (omega arith) (omega arith)

parent_bucket-before_example :
    (p : ℕ) × (j : ℕ) × (parent_bucket 6 ≡ some p)
    × (p < 6)
    × (2 ^ j ≤ 6)
    × (6 < 2 ^ suc j)
    × (p ≡ bucket_index 6 (2 ^ j))
    × (so_dummy p < so_dummy 6)
parent_bucket-before_example = parent_bucket-before 6 (omega arith) (omega arith)

-- Two calls that have loaded 2 buckets, of which one doubles them, and one that has loaded 4.
abbrev three_sets : List (ℕ × ℕ)
three_sets = (9, 2) ∷ (10, 2) ∷ (17, 4) ∷ []

eight_buckets : sizes three_sets 2 ≡ 8
unfolding grow
eight_buckets = refl

sizes-IsSize_example : IsSize (sizes three_sets 2)
sizes-IsSize_example = sizes-IsSize three_sets 2 (1, omega arith, omega arith, refl)

abbrev hash : ℕ → ℕ
hash k = k

-- `k` turns of goroutine `i`, and `k` turns of both of the first two.
abbrev goes : ℕ → ℕ → List (ℕ × ListOp ℕ ℕ)
goes i zero = []
goes i (suc k) = (i, get_op 5) ∷ goes i k

abbrev go_both : ℕ → List (ℕ × ListOp ℕ ℕ)
go_both zero = []
go_both (suc k) = (0, get_op 0) ∷ (1, get_op 0) ∷ go_both k

-- Two goroutines set 5 and 3 at once, and both make a sentinel for bucket 1; the one that comes second
-- finds the other's, and retries. Then a third deletes 5 and looks for it, and one finds 3.
abbrev turns : List (ℕ × ListOp ℕ ℕ)
turns =
    (0, set_op 5 50) ∷ (1, set_op 3 30) ∷ go_both 10
    ++ (goes 0 9
        ++ (goes 1 12
            ++ ((2, del_op 5) ∷ goes 2 12
                ++ ((2, get_op 5) ∷ goes 2 5 ++ ((0, get_op 3) ∷ goes 0 6)))))

abbrev shown : List (ℕ × Event (key_set ℕ ltb)) → List (ℕ × Event (key_set ℕ ltb))
shown [] = []
shown ((i, tau) ∷ es) = shown es
shown ((i, call op) ∷ es) = (i, call op) ∷ shown es
shown ((i, ret r) ∷ es) = (i, ret r) ∷ shown es

shown_calls :
    shown (run (split_machine ltb hash 0 0) (split_at_rest ltb hash 0 0) turns).0
    ≡ (0, call (set_op 5 50))
      ∷ (1, call (set_op 3 30))
      ∷ (0, ret true)
      ∷ (1, ret true)
      ∷ (2, call (del_op 5))
      ∷ (2, ret true)
      ∷ (2, call (get_op 5))
      ∷ (2, ret false)
      ∷ (0, call (get_op 3))
      ∷ (0, ret true)
      ∷ []
unfolding run turn access start access_bucket access_search access_set access_get access_del
    new_split store_next parent_bucket len_bits so_regular so_dummy reverse_bits grow
shown_calls = refl

split_run-LinRun_example :
    (a : Abstract (key_set ℕ ltb)) × LinRun
      (key_set ℕ ltb)
      (unused (key_set ℕ ltb) (λ j. false))
      (run (split_machine ltb hash 0 0) (split_at_rest ltb hash 0 0) turns).0
      a
    × ((i : ℕ)
        → IsSafe
            ((run (split_machine {V = ℕ} ltb hash 0 0) (split_at_rest ltb hash 0 0) turns).1.pc i))
split_run-LinRun_example =
    split_run-LinRun ltb ltb-IsStrictOrder hash (λ x y p q. ground arith) 0 0 turns

-- Two goroutines look for the pointer of bucket 5 at once, and both make a segment; then a third looks
-- for that of bucket 300.
abbrev seekers : List (ℕ × ℕ)
seekers =
    (0, 5)
    ∷ (1, 5)
    ∷ (0, 5)
    ∷ (1, 5)
    ∷ (0, 5)
    ∷ (1, 5)
    ∷ (1, 5)
    ∷ (2, 300)
    ∷ (2, 300)
    ∷ (2, 300)
    ∷ []

both_at_five :
    (get_elem? (seg_run seg_at_rest seekers).0 4 ≡ some (pointing 5 0 5))
    × (get_elem? (seg_run seg_at_rest seekers).0 6 ≡ some (pointing 5 0 5))
unfolding seg_run seg_access
both_at_five = (refl, refl)

seg_run_agrees_example :
    (◌≡◌ {A = ℕ} 5 300 ↔ (◌≡◌ {A = ℕ} 0 2 × ◌≡◌ {A = ℕ} 5 44))
    × All IsReached (seg_run seg_at_rest seekers).0
unfolding seg_run seg_access
seg_run_agrees_example =
    seg_run_agrees seekers 6 9 5 300 0 2 5 44
      (
        omega arith,
        (
          omega arith,
          (
            omega arith,
            (
              omega arith,
              (
                omega arith,
                (omega arith, (omega arith, (omega arith, (omega arith, (omega arith, tt))))),
              ),
            ),
          ),
        ),
      )
      refl refl
