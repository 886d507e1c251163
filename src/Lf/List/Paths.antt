-- ===== src/Lf/List/Paths.antt =====
-- lf/list.go: the paths along the links, and what an access does to the list.
use mathlib.Core.Path.{subst}
use native.Mathlib.Decide.{ℕ_discrete}
use lockfree.Base.{
  ℕ, ◌≡◌, ◌≢◌, ◌⊎◌, inl, inr, refl, sym, ap, ◌∙◌, Option, some, Bool, true, arith, update,
  update_self, update_ne,
}
use lockfree.Base.Less.{Less, IsStrictOrder}
use lockfree.Linear.{Event}
use lockfree.Linear.Spec.{Status, Watch}
use lockfree.Linear.Simulate.{Local}
use lockfree.Lf.List.{key_set, Pc}
use lockfree.Lf.List.Memory.{Nodes}
use lockfree.Lf.List.Order.{Same, Before, IsNormal, Before-trans, Leads, here, there}
use lockfree.Lf.List.Inv.{Past, Live, Inv, PcOk, Keeps}
use lockfree.Lf.List.Stays.{PcOk-stays}

pub some_inj : {a b : ℕ} → some a ≡ some b → a ≡ b
some_inj e = cc

module _ (next : ℕ → Option ℕ) where
  pub Leads-append : (a b c : ℕ) → Leads next a b → next b ≡ some c → Leads next a c
  Leads-append a b c (here same) e = there c (ap next same ∙ e) (here refl)
  Leads-append a b c (there d e' rest) e = there d e' (Leads-append d b c rest e)

  -- The paths from one node are along one line.
  pub Leads-meet : (s a b : ℕ) → Leads next s a → Leads next s b → Leads next a b ⊎ Leads next b a
  Leads-meet s a b (here same) q = inl (subst (λ x. Leads next x b) same q)
  Leads-meet s a b (there c e p) (here same) = inr (subst (λ x. Leads next x a) same (there c e p))
  Leads-meet s a b (there c e p) (there d e' q) =
      let same = some_inj (sym e ∙ e') in Leads-meet d a b (subst (λ x. Leads next x a) same p) q

  -- A node `n` that links to `curr` is put between `pred` and `curr`.
  pub Leads-insert :
      (pred curr n : ℕ)
      → next pred ≡ some curr
      → next n ≡ some curr
      → pred ≢ n
      → (a b : ℕ) → Leads next a b
      → Leads (update next pred (some n)) a b
  Leads-insert pred curr n at_pred at_n ne a b (here same) = here same
  Leads-insert pred curr n at_pred at_n ne a b (there c e rest) =
      let rest' = Leads-insert pred curr n at_pred at_n ne c b rest in
      elim (ℕ_discrete pred a) [
        | yes same ↦
            let at_curr = some_inj (sym e ∙ ap next (sym same) ∙ at_pred) in
            there n (ap (update next pred (some n)) (sym same) ∙ update_self next pred (some n)) (
              there curr (update_ne next (some n) ne ∙ at_n)
                (subst (λ x. Leads (update next pred (some n)) x b) at_curr rest'))
        | no other ↦ there c (update_ne next (some n) other ∙ e) rest'
      ]

  -- One step on, where the path does not end.
  pub Leads-step : (a b c : ℕ) → next a ≡ some c → a ≢ b → Leads next a b → Leads next c b
  Leads-step a b c e ne (here same) = absurd (ne same)
  Leads-step a b c e ne (there d e' rest) = subst (λ x. Leads next x b) (some_inj (sym e' ∙ e)) rest

-- The node `curr` is taken out from between `pred` and `succ`.
pub Leads-unlink :
    (next : ℕ → Option ℕ) (pred curr succ : ℕ)
    → next pred ≡ some curr
    → next curr ≡ some succ
    → pred ≢ curr
    → (a b : ℕ) → curr ≢ b
    → Leads next a b
    → Leads (update next pred (some succ)) a b
Leads-unlink next pred curr succ at_pred at_curr ne a b gone (here same) = here same
Leads-unlink next pred curr succ at_pred at_curr ne a b gone (there c e rest) =
    let rest' = Leads-unlink next pred curr succ at_pred at_curr ne c b gone rest in
    let next' = update next pred (some succ) in
    elim (ℕ_discrete pred a) [
      | yes same ↦
          let at_c = some_inj (sym e ∙ ap next (sym same) ∙ at_pred) in
          there succ (ap next' (sym same) ∙ update_self next pred (some succ)) (
            Leads-step next' curr b succ (update_ne next (some succ) ne ∙ at_curr) gone
              (subst (λ x. Leads next' x b) at_c rest'))
      | no other ↦ there c (update_ne next (some succ) other ∙ e) rest'
    ]

module _ {K V : Type 0} {less : Less K} (order : IsStrictOrder less) (m : Nodes K V) (g : Past)
    (keys : K → Bool) (inv : Inv less m g keys) where
  -- A link from a linked node leads to a later one.
  pub link-Before :
      (a b : ℕ) → g.linked a ≡ true → m.next a ≡ some b → (g.linked b ≡ true) × Before less m a b
  link-Before a b h e = elim (ℕ_discrete a 1) [
    | yes last ↦ let z = sym inv.last_next ∙ ap m.next (sym last) ∙ e in cc
    | no ne ↦
        let (c, e', h', lt) = inv.next_in a h ne in
        let same = some_inj (sym e' ∙ e) in
        (subst (λ x. g.linked x ≡ true) same h', subst (λ x. Before less m a x) same lt)
  ]

  pub Leads-Before : (a b : ℕ) → g.linked a ≡ true → Leads m.next a b → (a ≡ b) ⊎ Before less m a b
  Leads-Before a b h (here same) = inl same
  Leads-Before a b h (there c e rest) =
      let (h', lt) = link-Before a c h e in
      elim (Leads-Before c b h' rest) [
        | inl same ↦ inr (subst (λ x. Before less m a x) same lt)
        | inr lt' ↦ inr (Before-trans order m a c b lt lt')
      ]

  Before-Same :
      (a b : ℕ)
      → IsNormal less m a
      → IsNormal less m b
      → Before less m a b
      → Same less m (m.key a) (m.key b)
      → ⊥
  Before-Same a b (a0, a1) (b0, b1) lt (p, q) = ground arith

  -- At most one live node has a key.
  pub Live-unique :
      (a b : ℕ)
      → Live less m g a
      → Live less m g b
      → IsNormal less m a
      → IsNormal less m b
      → Same less m (m.key a) (m.key b)
      → a ≡ b
  Live-unique a b la lb na nb same = elim (Leads-meet m.next 0 a b (inv.led a la) (inv.led b lb)) [
    | inl p ↦ elim (Leads-Before a b la.0 p) [
      | inl eq ↦ eq
      | inr lt ↦ absurd (Before-Same a b na nb lt same)
    ]
    | inr p ↦ elim (Leads-Before b a lb.0 p) [
      | inl eq ↦ sym eq
      | inr lt ↦ absurd (Before-Same b a nb na lt (same.1, same.0))
    ]
  ]

-- What an access of goroutine `i`, with its call at `t`, does to a list of `keys`.
module _ {K V : Type 0} (less : Less K) (i : ℕ) (m : Nodes K V) (g : Past) (keys : K → Bool) where
  abbrev pub Outcome :
      Status (key_set V less) → Nodes K V × Pc K V × Event (key_set V less) → Type 0
  Outcome t (m', p', e) =
      (g' : Past) × (keys' : K → Bool) × (t' : Status (key_set V less)) × Inv less m' g' keys'
      × PcOk less m' g' i p' t'
      × ((j : ℕ) (q : Pc K V) (u : Status (key_set V less))
          → j ≢ i
          → PcOk less m g j q u
          → (u' : Status (key_set V less)) × Watch (key_set V less) keys' u u'
            × PcOk less m' g' j q u')
      × Local keys t keys' t' e

  pub outcome :
      (order : IsStrictOrder less)
      → Inv less m g keys
      → (m' : Nodes K V) (g' : Past) (keys' : K → Bool) (t t' : Status (key_set V less))
        (p' : Pc K V) (e : Event (key_set V less))
      → Inv less m' g' keys'
      → Keeps less m g i m' g' keys'
      → PcOk less m' g' i p' t'
      → Local keys t keys' t' e
      → Outcome t (m', p', e)
  outcome order inv m' g' keys' t t' p' e inv' keeps own local = (
    g',
    keys',
    t',
    inv',
    own,
    λ j q u ne k. PcOk-stays order inv m' g' keys' inv' keeps j q u ne k,
    local,
  )
