-- ===== src/Arithmetic/Tests.antt =====
-- arithmetic.go: a run of AddFloat64, and its theorems at it, with numbers for the floats.
use lockfree.Base.{ℕ, ◌+◌, ◌%◌, ◌^◌, ◌<◌, ◌≡◌, refl, some, List, [], ◌∷◌, ◌++◌, get_elem?, arith}
use lockfree.Arithmetic.{Floats, idle, returned, System, access, turn, run, adder, add_machine}
use lockfree.Arithmetic.Progress.{run-adds}
use lockfree.Arithmetic.Result.{ReturnsZero, run-ReturnsZero}
use lockfree.Arithmetic.Linearizable.{add_run-LinRun}
use lockfree.Linear as Linear
use lockfree.Linear.{Event, tau, call, ret}
use lockfree.Linear.Spec.{Abstract, LinRun, unused}

abbrev numbers : Floats
numbers = record {
  Float = ℕ;
  zero_float = 0;
  add = λ x y. x + y;
  to_bits = λ x. x;
  from_bits = λ b. b;
}

-- Numbers that wrap: of 64 bits, as the words are.
abbrev words : Floats
words = record {
  Float = ℕ;
  zero_float = 0;
  add = λ x y. (x + y) % 2 ^ 64;
  to_bits = λ x. x % 2 ^ 64;
  from_bits = λ b. b;
}

abbrev ten_words : System words
ten_words = record { word = 10; pc = λ i. idle }

words-back : (b : ℕ) → b < 2 ^ 64 → b % 2 ^ 64 ≡ b
words-back b lt = omega arith

abbrev ten : System numbers
ten = record { word = 10; pc = λ i. idle }

-- Two goroutines add 1 and 2; the second one has to retry.
abbrev turns : List (ℕ × ℕ)
turns = (0, 1) ∷ (1, 2) ∷ (0, 0) ∷ (1, 0) ∷ (0, 0) ∷ (1, 0) ∷ (1, 0) ∷ (1, 0) ∷ []

ends :
    ((run numbers ten turns).1.word ≡ 13)
    × ((run numbers ten turns).1.pc 0 ≡ returned 0)
    × ((run numbers ten turns).1.pc 1 ≡ returned 0)
unfolding run turn access
ends = (refl, refl, refl)

abbrev shown : List (ℕ × Event (adder numbers)) → List (ℕ × Event (adder numbers))
shown [] = []
shown ((i, tau) ∷ es) = shown es
shown ((i, call d) ∷ es) = (i, call d) ∷ shown es
shown ((i, ret r) ∷ es) = (i, ret r) ∷ shown es

shown_calls :
    (shown
        (Linear.run
          (add_machine numbers)
          (record { mem = 10; pc = λ i. idle })
          (turns ++ ((0, 0) ∷ (1, 0) ∷ []))).0
      ≡ (0, call 1) ∷ (1, call 2) ∷ (0, ret 0) ∷ (1, ret 0) ∷ [])
    × ((Linear.run (add_machine numbers) (record { mem = 10; pc = λ i. idle }) turns).1.mem ≡ 13)
unfolding Linear.run Linear.turn access
shown_calls = (refl, refl)

add_run-LinRun_example :
    (let end = Linear.run (add_machine numbers) (record { mem = 10; pc = λ i. idle }) turns in
      (a : Abstract (adder numbers)) × LinRun (adder numbers) (unused (adder numbers) 10) end.0 a
      × (end.1.mem ≡ a.state))
add_run-LinRun_example = add_run-LinRun numbers (λ x. refl) 10 turns

run-ReturnsZero_example : ReturnsZero numbers ((run numbers ten turns).1.pc 1)
run-ReturnsZero_example = run-ReturnsZero numbers turns ten (λ i. tt) 1

run-adds_example : (k : ℕ) × (d : ℕ) × (get_elem? (run words ten_words turns).0 k ≡ some (some d))
run-adds_example =
    run-adds words words-back turns ten_words 2
      (
        omega arith,
        (
          omega arith,
          (
            omega arith,
            (omega arith, (omega arith, (omega arith, (omega arith, (omega arith, tt))))),
          ),
        ),
      )
      (omega arith) (omega arith)
