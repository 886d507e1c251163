-- ===== src/Arithmetic/Linearizable.antt =====
-- arithmetic.go: the calls of AddFloat64 are those of a number to which each adds at one moment.
use mathlib.Core.Path.{subst}
use lockfree.Base.{ℕ, ◌≡◌, inl, inr, refl, sym, ap, ◌∙◌, List, ◌==◌, ==_iff, Bool-cases}
use lockfree.Linear.{Event, run}
use lockfree.Linear.Spec.{Status, Waits, Answers, out, called, done, Abstract, LinRun, unused}
use lockfree.Linear.Simulate.{Local, stays, commits, starts, answers, Simulation, run-LinRun}
use lockfree.Arithmetic.{
  Floats, Pc, idle, adding, loaded, returned, access, adder_apply_op, adder, add_access,
  add_machine,
}

module _ (fl : Floats) (round_trip : (x : fl.Float) → fl.from_bits (fl.to_bits x) ≡ x) where
  open fl use {Float, zero_float, add, to_bits, from_bits}

  -- Where the call of a goroutine at `p` stands: it has taken effect once its compare-and-swap has.
  abbrev StatusOk : Pc fl → Status (adder fl) → Type 0
  StatusOk idle t = t ≡ out
  StatusOk (adding delta) t = t ≡ called delta
  StatusOk (loaded delta old) t = t ≡ called delta
  StatusOk (returned new) t = t ≡ done new

  abbrev Moves : Float → Status (adder fl) → ℕ × Pc fl × Event (adder fl) → Type 0
  Moves x t (word', p', e) =
      (x' : Float) × (t' : Status (adder fl)) × (from_bits word' ≡ x')
      × StatusOk p' t'
      × Local x t x' t' e

  access-Moves :
      (d : Float) (word : ℕ) (p : Pc fl) (x : Float) (t : Status (adder fl))
      → from_bits word ≡ x
      → StatusOk p t
      → Moves x t (add_access fl d word p)
  unfolding access adder_apply_op
  access-Moves d word idle x t inv ok = (x, called d, inv, refl, starts d refl ok refl refl)
  access-Moves d word (returned new) x t inv ok = (
    x,
    out,
    inv,
    refl,
    answers new refl (subst (λ u. Answers (adder fl) u new) (sym ok) refl) refl refl,
  )
  access-Moves d word (adding delta) x t inv ok = (x, t, inv, ok, stays refl refl refl)
  access-Moves d word (loaded delta old) x t inv ok = elim (Bool-cases (word == to_bits old)) [
    | inl same ↦
        let here : x ≡ old =
          sym inv ∙ ap from_bits ((==_iff word (to_bits old)).0 same) ∙ round_trip old in
        rw same (
          add old delta,
          done zero_float,
          round_trip (add old delta),
          refl,
          commits delta zero_float refl (subst (λ u. Waits (adder fl) u delta) (sym ok) refl)
              (λ i. (add (here i) delta, zero_float)) refl,
        )
    | inr moved ↦ rw moved (x, t, inv, ok, stays refl refl refl)
  ]

  abbrev add_simulation : Simulation (add_machine fl)
  add_simulation = record {
    Ghost = Unit;
    Inv = λ word g x. from_bits word ≡ x;
    PcOk = λ word g i p t. StatusOk p t;
    moves = λ i d word g x p t inv ok.
        let (x', t', inv', ok', local) = access-Moves d word p x t inv ok in
        (tt, x', t', inv', ok', (λ j q u ne kept. (u, inl refl, kept)), local);
  }

  -- If `Float64frombits` undoes `Float64bits`, then under every schedule the calls of AddFloat64 start
  -- and return as those do that add to a number, each at one moment between its start and its return,
  -- and the word at the end is that number. (Each returns the zero value.)
  pub add_run-LinRun :
      (word : ℕ) (ts : List (ℕ × Float))
      → (let end = run (add_machine fl) (record { mem = word; pc = λ i. idle }) ts in
          (a : Abstract (adder fl)) × LinRun (adder fl) (unused (adder fl) (from_bits word)) end.0 a
          × (from_bits end.1.mem ≡ a.state))
  add_run-LinRun word ts =
      let (g, a, ok, lin) =
        run-LinRun (add_machine fl) add_simulation ts (record { mem = word; pc = λ i. idle }) tt
          (unused (adder fl) (from_bits word)) (record { inv = refl; local = λ i. refl }) in
      (a, lin, ok.inv)
