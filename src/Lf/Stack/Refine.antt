-- ===== src/Lf/Stack/Refine.antt =====
-- lf/stack.go: what an access does to the elements and to what holds between accesses.
use mathlib.Core.Path.{subst}
use native.Mathlib.Decide.{ℕ_discrete}
use lockfree.Base.{
  ℕ, ◌≤◌, ◌≡◌, ◌≢◌, ◌⊎◌, inl, inr, refl, sym, ap, ◌∙◌, none, Bool, false, List, [], update,
  update_self, update_ne, arith,
}
use lockfree.Lf.Stack.{Pc, Call, System, idle, access, turn, new_stack}
use lockfree.Lf.Stack.Lifo.{LifoStep}
use lockfree.Lf.Stack.Inv.{Chain, Holds, Holds-lt, PcOk, PcOk-stays}
use lockfree.Lf.Stack.Keep.{access-Outcome}

module _ {ℓ} {A : Type ℓ} where
  at_cases :
      (pc : ℕ → Pc A) (i : ℕ) (q : Pc A) (j b : ℕ)
      → Holds (update pc i q j) b
      → ((i ≡ j) × Holds q b) ⊎ ((i ≢ j) × Holds (pc j) b)
  at_cases pc i q j b h = elim (ℕ_discrete i j) [
    | yes same ↦
        inl (same, subst (λ p. Holds p b) (ap (update pc i q) (sym same) ∙ update_self pc i q) h)
    | no ne ↦ inr (ne, subst (λ p. Holds p b) (update_ne pc q ne) h)
  ]

  -- What holds between two accesses of a stack of `xs`.
  pub record Inv (s : System A) (linked : ℕ → Bool) (xs : List A) : Type ℓ where
    pub chain : Chain s.stack.next s.stack.val linked s.stack.top xs
    pub fresh : (a : ℕ) → s.stack.alloc ≤ a → linked a ≡ false
    pub local : (i : ℕ) → PcOk s.stack linked (s.pc i)
    pub apart : (i j b : ℕ) → Holds (s.pc i) b → Holds (s.pc j) b → i ≡ j

  -- Each access keeps the invariant, and does to the elements what its event says: a push puts its
  -- value on top at its successful compare-and-swap, a pop takes the top one at its own, or finds
  -- the stack empty when it loads a nil top, and no other access changes anything.
  pub turn-LifoStep :
      (s : System A) (linked : ℕ → Bool) (xs : List A) (i : ℕ) (c : Call A)
      → Inv s linked xs
      → (linked' : ℕ → Bool) × (ys : List A) × Inv (turn s i c).0 linked' ys
        × LifoStep xs (turn s i c).1 ys
  unfolding turn
  turn-LifoStep s linked xs i c inv =
      let r = access c s.stack (s.pc i) in
      let x = access-Outcome s.stack linked xs inv.chain inv.fresh c (s.pc i) (inv.local i) in
      let at = update s.pc i r.1 in
      let at_other = λ (j : ℕ) (ne : i ≢ j). update_ne s.pc r.1 ne in
      let new_apart : (j b : ℕ) → i ≢ j → Holds r.1 b → Holds (s.pc j) b → ⊥ = λ j b ne h k.
        elim (x.holds b h) [
          | inl old ↦ ne (inv.apart i j b old k)
          | inr fresh ↦
              let lt = (Holds-lt s.stack linked (s.pc j) b (inv.local j) k).0 in
              absurd (omega arith)
        ] in
      (
        x.linked',
        x.ys,
        record {
          chain = x.chain;
          fresh = x.fresh;
          local = λ j. elim (ℕ_discrete i j) [
            | yes same ↦
                subst (PcOk r.0 x.linked') (sym (ap at (sym same) ∙ update_self s.pc i r.1)) x.own
            | no ne ↦ subst (PcOk r.0 x.linked') (sym (at_other j ne)) (
                PcOk-stays s.stack linked xs (s.pc i) r x (s.pc j)
                  (λ b h k. ne (inv.apart i j b k h)) (inv.local j))
          ];
          apart = λ j k b h h'. elim (at_cases s.pc i r.1 j b h) [
            | inl (e, mine) ↦ elim (at_cases s.pc i r.1 k b h') [
              | inl (e', _) ↦ sym e ∙ e'
              | inr (ne, other) ↦ absurd (new_apart k b ne mine other)
            ]
            | inr (ne, other) ↦ elim (at_cases s.pc i r.1 k b h') [
              | inl (e', mine) ↦ absurd (new_apart j b ne mine other)
              | inr (_, other') ↦ inv.apart j k b other other'
            ]
          ];
        },
        x.event,
      )

  -- A new stack, on which nobody has called yet.
  abbrev pub at_rest : A → System A
  at_rest blank = record { stack = new_stack blank; pc = λ i. idle none }

  pub at_rest-Inv : (blank : A) → Inv (at_rest blank) (λ a. false) []
  unfolding new_stack
  at_rest-Inv blank = record {
    chain = (refl, tt);
    fresh = λ a h. refl;
    local = λ i. tt;
    apart = λ i j b h k. absurd h;
  }
