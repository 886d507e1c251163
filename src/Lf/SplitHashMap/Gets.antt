-- ===== src/Lf/SplitHashMap/Gets.antt =====
-- lf/splithashmap.go: each access of `Get` keeps what holds of the table.
use mathlib.Core.Path.{subst}
use lockfree.Base.{
  ℕ, ◌≡◌, inl, inr, refl, sym, ap, ◌∙◌, none, some, Bool, Bool-cases, true, false, arith, ◌==◌,
  ==_iff,
}
use lockfree.Base.Less.{Less, IsStrictOrder}
use lockfree.Linear.{tau}
use lockfree.Linear.Spec.{Status, seen}
use lockfree.Linear.Simulate.{observes}
use lockfree.Lf.List.{get_op, key_set}
use lockfree.Lf.List.Memory.{key_less}
use lockfree.Lf.List.Order.{Same, IsNormal}
use lockfree.Lf.List.Inv.{IsBehind}
use lockfree.Lf.List.Sought.{Sought-step}
use lockfree.Lf.List.Reads.{next-some, marked-some, equal_present}
use lockfree.Lf.SplitHashMap.Memory.{SoKey, Split, regular, so_less, get_equal, is_past}
use lockfree.Lf.SplitHashMap.Keys.{
  alike, get_equal-alike, so_less-IsStrictOrder, normal-key_less, normal-key_equal, regular-odd,
}
use lockfree.Lf.SplitHashMap.Access.{Pc, getting, get_value, get_at, returning}
use lockfree.Lf.SplitHashMap.Access.Calls.{access_get, get_on, get_next}
use lockfree.Lf.SplitHashMap.Inv.{Known, SplitInv, Tracks, PcOk}
use lockfree.Lf.SplitHashMap.Reads.{Tracks-Waits, apply_get}
use lockfree.Lf.SplitHashMap.Stores.{Outcome, no_store}
use lockfree.Lf.SplitHashMap.Search.{Tracks-step, Tracks-absent}
use lockfree.Lf.SplitHashMap.Calls.{silent, will_answer, so_dummy-zero, past-differ}

module _ {K V : Type 0} {less : Less K} (order : IsStrictOrder less) (hash : K → ℕ)
    (agree : (x y : K) → less x y ≡ false → less y x ≡ false → hash x ≡ hash y) (blank : K) (i : ℕ)
    (m : Split K V) (g : Known K) (present : K → Bool)
    (inv : SplitInv less hash blank m g present) where
  -- At the nil pointer `Get` has seen its key absent.
  get_at-Outcome :
      (k : K) (curr : ℕ) (t : Status (key_set V less))
      → Tracks less hash blank m g t (get_op k) curr
      → g.past.linked curr ≡ true
      → Outcome less hash blank i m g present t (m, get_at less hash blank k curr, tau)
  get_at-Outcome k curr t track h = elim (Bool-cases (curr == 1)) [
    | inl end ↦
        let at = (==_iff curr 1).0 end in
        let behind : IsBehind (so_less less) m.nodes g.past curr (regular hash k) =
          subst (λ c. IsBehind (so_less less) m.nodes g.past c (regular hash k)) (sym at)
            (inv.list.last_live.0, refl, refl) in
        let absent =
          Tracks-absent order hash agree blank i m g present inv t (get_op k) curr behind track in
        rw end (
          silent order hash agree blank i m g present inv (returning false none) t
            (will_answer V less t (seen (get_op k) false) false absent refl))
    | inr on ↦ rw on (
        silent order hash agree blank i m g present inv (getting k curr) t
          (track, h, λ e. ground arith))
  ]

  get_on-Outcome :
      (k : K) (curr b : ℕ) (t : Status (key_set V less))
      → Tracks less hash blank m g t (get_op k) b
      → m.nodes.next curr ≡ some b
      → g.past.linked b ≡ true
      → Outcome less hash blank i m g present t
          (m, get_on less hash blank k (m.nodes.next curr), tau)
  get_on-Outcome k curr b t track e h =
      subst (λ x. Outcome less hash blank i m g present t (m, get_on less hash blank k x, tau))
        (sym e) (get_at-Outcome k b t track h)

  -- The head is a sentinel, and so neither behind the key nor at it.
  at_head :
      (k : K) (curr : ℕ)
      → curr ≡ 0
      → (is_past (m.nodes.key curr) (regular hash k) ≡ false)
        × (get_equal less (m.nodes.key curr) (regular hash k) ≡ false)
  at_head k curr first =
      let key = ap m.nodes.key first ∙ inv.head_key in
      let number = ap (λ (x : SoKey K). x.so_key) key ∙ so_dummy-zero in
      let dummy = ap (λ (x : SoKey K). x.dummy) key in (ground arith, rw dummy refl)

  -- One node on, from an element or sentinel that is not at the key.
  differ-step :
      (k : K) (curr b : ℕ) (t : Status (key_set V less))
      → m.nodes.next curr ≡ some b
      → IsNormal (so_less less) m.nodes curr
      → alike less (m.nodes.key curr) (regular hash k) ≡ false
      → Tracks less hash blank m g t (get_op k) curr
      → Tracks less hash blank m g t (get_op k) b
  differ-step k curr b t e normal differ (inl absent) = inl absent
  differ-step k curr b t e normal differ (inr (w, way)) = inr (
    w,
    Sought-step (so_less-IsStrictOrder order) m.nodes g.past g.keys inv.list (regular hash k) curr b
        e
        (λ c live normal' same at.
          let here : Same (so_less less) m.nodes (m.nodes.key curr) (regular hash k) =
            subst (λ a. Same (so_less less) m.nodes (m.nodes.key a) (regular hash k)) (sym at)
              same in
          let yes : alike less (m.nodes.key curr) (regular hash k) ≡ true =
            rw (here.0, here.1) refl in
          let z = sym yes ∙ differ in cc)
        way,
  )

  -- An unmarked node that is no end.
  normal-Outcome :
      (k : K) (curr : ℕ) (t : Status (key_set V less))
      → PcOk less hash blank m g i (getting k curr) t
      → m.nodes.marked curr ≡ false
      → IsNormal (so_less less) m.nodes curr
      → Outcome less hash blank i m g present t (
        m,
        get_next less hash blank k curr
            (m.nodes.next curr)
            false
            (is_past (m.nodes.key curr) (regular hash k))
            (get_equal less (m.nodes.key curr) (regular hash k)),
        tau,
      )
  normal-Outcome k curr t (track, h, off) mk normal =
      let x = regular hash k in
      let less_same = normal-key_less less m.nodes curr x normal in
      let equal_same = normal-key_equal less m.nodes curr x normal in
      let tests =
        get_equal-alike order blank (m.nodes.key curr) x (inv.well curr h normal) refl
          (regular-odd hash k) in
      let (b, e, h') =
        next-some (so_less-IsStrictOrder order) m.nodes g.past g.keys inv.list curr h off in
      elim (Bool-cases (is_past (m.nodes.key curr) x)) [
        | inl past ↦
            let (not_less, not_alike) = past-differ less (m.nodes.key curr) x past in
            let absent =
              Tracks-absent order hash agree blank i m g present inv t (get_op k) curr
                (h, less_same ∙ not_less, equal_same ∙ not_alike) track in
            rw past (
              silent order hash agree blank i m g present inv (returning false none) t
                (will_answer V less t (seen (get_op k) false) false absent refl))
        | inr before ↦ elim (Bool-cases (get_equal less (m.nodes.key curr) x)) [
          | inl same ↦
              let both = sym tests ∙ same in
              let not_less : so_less less (m.nodes.key curr) x ≡ false = ground arith in
              let here =
                equal_present (so_less-IsStrictOrder order) m.nodes g.past g.keys inv.list curr x mk
                  (h, less_same ∙ not_less, equal_same ∙ both) in
              rw (before, same)
                (no_store order hash agree blank i m g present inv (get_value k curr) t
                  (seen (get_op k) true) tau refl
                  (observes (get_op k) true refl
                    (Tracks-Waits order hash agree blank m g t (get_op k) curr track)
                    (apply_get order hash agree blank m g present inv k here) refl refl))
          | inr differ ↦
              let on = differ-step k curr b t e normal (sym tests ∙ differ) track in
              rw (before, differ) (get_on-Outcome k curr b t on e h')
        ]
      ]

  getting-Outcome :
      (k : K) (curr : ℕ) (t : Status (key_set V less))
      → PcOk less hash blank m g i (getting k curr) t
      → Outcome less hash blank i m g present t (access_get less hash blank m (getting k curr))
  unfolding access_get
  getting-Outcome k curr t (track, h, off) = elim (Bool-cases (m.nodes.marked curr)) [
    | inl mk ↦
        let (b, e, h') =
          marked-some (so_less-IsStrictOrder order) m.nodes g.past g.keys inv.list curr h mk in
        rw mk (
          get_on-Outcome k curr b t
            (Tracks-step order hash agree blank i m g present inv t (get_op k) curr b e (inl mk)
              track)
            e h')
    | inr mk ↦ elim (Bool-cases (curr == 0)) [
      | inl first ↦
          let at = (==_iff curr 0).0 first in
          let (past, equal) = at_head k curr at in
          let (b, e, h') =
            next-some (so_less-IsStrictOrder order) m.nodes g.past g.keys inv.list curr h off in
          let before : key_less (so_less less) m.nodes curr (regular hash k) ≡ true =
            subst (λ a. key_less (so_less less) m.nodes a (regular hash k) ≡ true) (sym at) refl in
          rw (mk, past, equal)
            (get_on-Outcome k curr b t
              (Tracks-step order hash agree blank i m g present inv t (get_op k) curr b e
                (inr before) track)
              e h')
      | inr on ↦ rw mk (normal-Outcome k curr t (track, h, off) mk ((λ z. ground arith), off))
    ]
  ]

  pub get-Outcome :
      (p : Pc K V) (t : Status (key_set V less))
      → PcOk less hash blank m g i p t
      → Outcome less hash blank i m g present t (access_get less hash blank m p)
  unfolding access_get
  get-Outcome (getting k curr) t ok = getting-Outcome k curr t ok
  get-Outcome (get_value k curr) t ok =
      silent order hash agree blank i m g present inv (returning true (some (m.nodes.val curr))) t
        (will_answer V less t (seen (get_op k) true) true ok refl)
  get-Outcome p t ok = silent order hash agree blank i m g present inv p t ok
