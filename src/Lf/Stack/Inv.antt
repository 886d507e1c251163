-- ===== src/Lf/Stack/Inv.antt =====
-- lf/stack.go: what holds between any two accesses.
use lockfree.Base.{
  ℕ, ◌≤◌, ◌<◌, ◌≡◌, Option, none, some, Bool, true, false, List, [], ◌∷◌, sym, ◌∙◌, arith, refl,
  ◌⊎◌,
}
use mathlib.Core.Path.{subst}
use lockfree.Lf.Stack.Lifo.{Event, LifoStep}
use lockfree.Lf.Stack.{
  Stack, Pc, idle, pushing, push_loaded, push_stored, push_done, popping, pop_empty, pop_loaded,
  pop_next, pop_done,
}

module _ {ℓ} {A : Type ℓ} where
  -- The nodes from `t` on hold `xs`; `linked` marks the nodes that were ever on the stack.
  abbrev pub Chain : (ℕ → Option ℕ) → (ℕ → A) → (ℕ → Bool) → Option ℕ → List A → Type ℓ
  Chain next val linked t [] = (t ≡ none) × Unit
  Chain next val linked t (x ∷ xs) =
      (a : ℕ) × (t ≡ some a) × (linked a ≡ true) × (val a ≡ x) × Chain next val linked (next a) xs

  -- The node that a goroutine is about to push.
  abbrev pub Holds : Pc A → ℕ → Type 0
  Holds (pushing item) b = item ≡ b
  Holds (push_loaded item t) b = item ≡ b
  Holds (push_stored item t) b = item ≡ b
  Holds p b = ⊥

  module _ (s : Stack A) (linked : ℕ → Bool) where
    abbrev pub IsPrivate : ℕ → Type 0
    IsPrivate item = (item < s.alloc) × (linked item ≡ false)

    -- What holds of a goroutine's locals: the link of a node that was ever on the stack is final.
    abbrev pub PcOk : Pc A → Type 0
    PcOk (pushing item) = IsPrivate item
    PcOk (push_loaded item t) = IsPrivate item
    PcOk (push_stored item t) = IsPrivate item × (s.next item ≡ t)
    PcOk (pop_loaded a) = linked a ≡ true
    PcOk (pop_next a nx) = (linked a ≡ true) × (s.next a ≡ nx)
    PcOk p = Unit

  -- Nodes that were ever on the stack keep their fields.
  pub Chain-stays :
      {next next' : ℕ → Option ℕ} {val val' : ℕ → A} {linked linked' : ℕ → Bool}
      → ((a : ℕ) → linked a ≡ true → (next' a ≡ next a) × (val' a ≡ val a) × (linked' a ≡ true))
      → (t : Option ℕ) (xs : List A) → Chain next val linked t xs
      → Chain next' val' linked' t xs
  Chain-stays kept t [] c = c
  Chain-stays {next} {next'} {val} {val'} {linked} {linked'} kept t (x ∷ xs) (a, e, l, v, rest) =
      let (same, same_val, l') = kept a l in
      (
        a,
        e,
        l',
        same_val ∙ v,
        subst (λ u. Chain next' val' linked' u xs) (sym same) (Chain-stays kept (next a) xs rest),
      )

  pub Holds-lt :
      (s : Stack A) (linked : ℕ → Bool) (q : Pc A) (b : ℕ)
      → PcOk s linked q
      → Holds q b
      → (b < s.alloc) × (linked b ≡ false)
  Holds-lt s linked (pushing item) b ok h = rw (← h) ok
  Holds-lt s linked (push_loaded item t) b ok h = rw (← h) ok
  Holds-lt s linked (push_stored item t) b ok h = rw (← h) ok.0
  Holds-lt s linked q b ok h = absurd h

  -- What an access of a goroutine at `p` does to the stack of `xs`.
  pub record Outcome (s : Stack A) (linked : ℕ → Bool) (xs : List A) (p : Pc A)
      (r : Stack A × Pc A × Event A) : Type ℓ where
    pub linked' : ℕ → Bool
    pub ys : List A
    pub chain : Chain r.0.next r.0.val linked' r.0.top ys
    pub fresh : (a : ℕ) → r.0.alloc ≤ a → linked' a ≡ false
    pub own : PcOk r.0 linked' r.1
    pub event : LifoStep xs r.2 ys
    pub alloc_le : s.alloc ≤ r.0.alloc
    pub kept : (a : ℕ) → linked a ≡ true → (r.0.next a ≡ s.next a) × (linked' a ≡ true)
    pub others :
        (b : ℕ)
        → (Holds p b → ⊥)
        → b < s.alloc
        → linked b ≡ false
        → (linked' b ≡ false) × (r.0.next b ≡ s.next b)
    pub holds : (b : ℕ) → Holds r.1 b → Holds p b ⊎ (b ≡ s.alloc)

  pub PcOk-stays :
      (s : Stack A) (linked : ℕ → Bool) (xs : List A) (p : Pc A) (r : Stack A × Pc A × Event A)
      (x : Outcome s linked xs p r) (q : Pc A)
      → ((b : ℕ) → Holds q b → Holds p b → ⊥)
      → PcOk s linked q
      → PcOk r.0 x.linked' q
  PcOk-stays s linked xs p r x (pushing item) ne (lt, priv) =
      let le = x.alloc_le in (omega arith, (x.others item (ne item refl) lt priv).0)
  PcOk-stays s linked xs p r x (push_loaded item t) ne (lt, priv) =
      let le = x.alloc_le in (omega arith, (x.others item (ne item refl) lt priv).0)
  PcOk-stays s linked xs p r x (push_stored item t) ne ((lt, priv), e) =
      let le = x.alloc_le in
      let (priv', same) = x.others item (ne item refl) lt priv in ((omega arith, priv'), same ∙ e)
  PcOk-stays s linked xs p r x (pop_loaded a) ne l = (x.kept a l).1
  PcOk-stays s linked xs p r x (pop_next a nx) ne (l, e) = ((x.kept a l).1, (x.kept a l).0 ∙ e)
  PcOk-stays s linked xs p r x (idle v) ne ok = tt
  PcOk-stays s linked xs p r x push_done ne ok = tt
  PcOk-stays s linked xs p r x popping ne ok = tt
  PcOk-stays s linked xs p r x pop_empty ne ok = tt
  PcOk-stays s linked xs p r x (pop_done v) ne ok = tt
