-- ===== src/Linear/Simulate.antt =====
-- interfaces.go: a machine is linearizable if each access keeps an invariant and moves the object as
-- its goroutine's call may.
use mathlib.Core.Path.{subst}
use native.Mathlib.Decide.{ℕ_discrete}
use lockfree.Base.{
  ℕ, ◌≡◌, ◌≢◌, refl, sym, ap, ◌∙◌, inl, inr, List, [], ◌∷◌, update, update_self, update_ne,
  update_same,
}
use lockfree.Linear.{Sequential, Event, tau, call, ret, Machine, System, turn, run}
use lockfree.Linear.Spec.{
  Status, out, called, seen, done, Abstract, Waits, Answers, Watch, acts, sees, nothing, then,
  LinStep, inside, calls, returns, LinRun, end, step,
}

module _ {o : Sequential} where
  open o use {State, Op, Response, apply_op}

  -- How an access of a goroutine whose call stands at `t` moves the object and that status.
  pub data Local (x : State) (t : Status o) (x' : State) (t' : Status o) : Event o → Type 0 where
    stays : {e : Event o} → e ≡ tau → x ≡ x' → t ≡ t' → Local x t x' t' e
    commits :
        {e : Event o} (op : Op) (r : Response)
        → e ≡ tau
        → Waits o t op
        → apply_op op x ≡ (x', r)
        → t' ≡ done r
        → Local x t x' t' e
    observes :
        {e : Event o} (op : Op) (r : Response)
        → e ≡ tau
        → Waits o t op
        → apply_op op x ≡ (x, r)
        → x ≡ x'
        → t' ≡ seen op r
        → Local x t x' t' e
    starts :
        {e : Event o} (op : Op)
        → e ≡ call op
        → t ≡ out
        → x ≡ x'
        → t' ≡ called op
        → Local x t x' t' e
    answers :
        {e : Event o} (r : Response)
        → e ≡ ret r
        → Answers o t r
        → x ≡ x'
        → t' ≡ out
        → Local x t x' t' e

  abbrev pub moved : Abstract o → ℕ → State → Status o → Abstract o
  moved a i x' t' = record { state = x'; status = update a.status i t' }

  pub moved-eq :
      (a : Abstract o) (i : ℕ) {x x' : State} {t t' : Status o}
      → x ≡ x'
      → t ≡ t'
      → moved a i x t ≡ moved a i x' t'
  moved-eq a i p q = λ k. moved a i (p k) (q k)

  -- The calls of the others, and this one again, may then see the state.
  pub Local-LinStep :
      (a : Abstract o) (i : ℕ) (x' : State) (t' : Status o) (e : Event o) (u : ℕ → Status o)
      → Local a.state (a.status i) x' t' e
      → ((j : ℕ) → Watch o x' (update a.status i t' j) (u j))
      → LinStep o a i (record { state = x'; status = u }) e
  Local-LinStep a i x' t' e u (stays quiet same same') watch =
      let kept : moved a i a.state (a.status i) ≡ a =
        λ k. record { state = a.state; status = update_same a.status i refl k } in
      (
        moved a i x' t',
        inside quiet (sym (moved-eq a i same same') ∙ kept),
        then (sees refl watch) nothing,
      )
  Local-LinStep a i x' t' e u (commits op r quiet waits applied back) watch = (
    a,
    inside quiet refl,
    then
        (acts i op waits (
          moved-eq a i (sym (ap (λ (y : State × Response). y.0) applied))
            (back ∙ ap (λ (y : State × Response). done y.1) (sym applied))))
        (then (sees refl watch) nothing),
  )
  Local-LinStep a i x' t' e u (observes op r quiet waits applied same back) watch = (
    a,
    inside quiet refl,
    then {a = a} {c = moved a i x' t'}
        (sees (sym same) (λ j. elim (ℕ_discrete i j) [
          | yes here ↦
              let at_i : update a.status i t' j ≡ seen op (apply_op op a.state).1 =
                ap (update a.status i t') (sym here)
                ∙ update_self a.status i t'
                ∙ back
                ∙ ap (λ (y : State × Response). seen op y.1) (sym applied) in
              inr (
                op,
                subst (λ k. Waits o (a.status k) op) here waits,
                ap (λ (y : State × Response). y.0) applied,
                at_i,
              )
          | no other ↦ inl (sym (update_ne a.status t' other))
        ]))
        (then (sees refl watch) nothing),
  )
  Local-LinStep a i x' t' e u (starts op shown free same back) watch = (
    moved a i x' t',
    calls op shown free (moved-eq a i (sym same) back),
    then (sees refl watch) nothing,
  )
  Local-LinStep a i x' t' e u (answers r shown answer same back) watch = (
    moved a i x' t',
    returns r shown answer (moved-eq a i (sym same) back),
    then (sees refl watch) nothing,
  )

  -- An invariant of the memory, what a goroutine's place and locals mean for its call, and that each
  -- access keeps both. `Ghost` is what the proof knows of the past.
  pub record Simulation (mc : Machine o) : Type 1 where
    pub Ghost : Type 0
    pub Inv : mc.Mem → Ghost → State → Type 0
    pub PcOk : mc.Mem → Ghost → ℕ → mc.Pc → Status o → Type 0
    pub moves :
        (i : ℕ) (op : Op) (m : mc.Mem) (g : Ghost) (x : State) (p : mc.Pc) (t : Status o)
        → Inv m g x
        → PcOk m g i p t
        → (let (m', p', e) = mc.access i op m p in
            (g' : Ghost) × (x' : State) × (t' : Status o) × Inv m' g' x'
            × PcOk m' g' i p' t'
            × ((j : ℕ) (q : mc.Pc) (u : Status o)
                → j ≢ i
                → PcOk m g j q u
                → (u' : Status o) × Watch o x' u u' × PcOk m' g' j q u')
            × Local x t x' t' e)

  module _ (mc : Machine o) (sim : Simulation mc) where
    open sim use {Ghost, Inv, PcOk, moves}

    -- The machine and the object in step.
    pub record Together (s : System mc) (g : Ghost) (a : Abstract o) : Type 0 where
      pub inv : Inv s.mem g a.state
      pub local : (i : ℕ) → PcOk s.mem g i (s.pc i) (a.status i)

    pub turn-LinStep :
        (s : System mc) (g : Ghost) (a : Abstract o) (i : ℕ) (op : Op)
        → Together s g a
        → (g' : Ghost) × (a' : Abstract o) × Together (turn mc s i op).0 g' a'
          × LinStep o a i a' (turn mc s i op).1
    unfolding turn
    turn-LinStep s g a i op ok =
        let (g', x', t', inv', own, others, local) =
          moves i op s.mem g a.state (s.pc i) (a.status i) ok.inv (ok.local i) in
        let p' = (mc.access i op s.mem (s.pc i)).1 in
        let m' = (mc.access i op s.mem (s.pc i)).0 in
        -- Each goroutine's status behind the access.
        let after : (j : ℕ)
            → (u' : Status o) × Watch o x' (update a.status i t' j) u'
              × PcOk m' g' j (update s.pc i p' j) u' =
          λ j. elim (ℕ_discrete i j) [
            | yes same ↦ (
              t',
              inl (ap (update a.status i t') (sym same) ∙ update_self a.status i t'),
              subst (λ k. PcOk m' g' k (update s.pc i p' k) t') same
                  (subst (λ q. PcOk m' g' i q t') (sym (update_self s.pc i p')) own),
            )
            | no ne ↦
                let (u', watch, ok') =
                  others j (s.pc j) (a.status j) (λ e. ne (sym e)) (ok.local j) in
                (
                  u',
                  subst (λ u. Watch o x' u u') (sym (update_ne a.status t' ne)) watch,
                  subst (λ q. PcOk m' g' j q u') (sym (update_ne s.pc p' ne)) ok',
                )
          ] in
        (
          g',
          record { state = x'; status = λ j. (after j).0 },
          record { inv = inv'; local = λ j. (after j).2 },
          Local-LinStep a i x' t' _ (λ j. (after j).0) local (λ j. (after j).1),
        )

    -- Whatever the schedule, the calls of a machine with a simulation are those of the object.
    pub run-LinRun :
        (ts : List (ℕ × Op)) (s : System mc) (g : Ghost) (a : Abstract o)
        → Together s g a
        → (g' : Ghost) × (a' : Abstract o) × Together (run mc s ts).1 g' a'
          × LinRun o a (run mc s ts).0 a'
    unfolding run
    run-LinRun [] s g a ok = (g, a, ok, end)
    run-LinRun ((i, op) ∷ ts) s g a ok =
        let (g1, a1, ok1, first) = turn-LinStep s g a i op ok in
        let (g2, a2, ok2, rest) = run-LinRun ts (turn mc s i op).0 g1 a1 ok1 in
        (g2, a2, ok2, step first rest)
