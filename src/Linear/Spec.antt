-- ===== src/Linear/Spec.antt =====
-- interfaces.go: linearizability, as the runs of an object whose calls take effect at one moment
-- between their start and their return.
use lockfree.Base.{ℕ, ◌≡◌, ◌⊎◌, List, [], ◌∷◌, update}
use lockfree.Linear.{Sequential, Event, tau, call, ret}

module _ (o : Sequential) where
  open o use {State, Op, Response, apply_op}

  -- Where the call of a goroutine stands: there is none, it has not taken effect, it has seen a state
  -- that it would answer with this and leave as it is, or it has taken effect with this answer.
  pub data Status : Type 0 where
    out : Status
    called : Op → Status
    seen : Op → Response → Status
    done : Response → Status

  pub record Abstract : Type 0 where
    pub state : State
    pub status : ℕ → Status

  abbrev pub Waits : Status → Op → Type 0
  Waits (called op') op = op' ≡ op
  Waits (seen op' r) op = op' ≡ op
  Waits t op = ⊥

  abbrev pub Answers : Status → Response → Type 0
  Answers (seen op r') r = r' ≡ r
  Answers (done r') r = r' ≡ r
  Answers t r = ⊥

  -- A call that has not taken effect may see the state `x`, if its operation leaves it as it is.
  abbrev pub Watch : State → Status → Status → Type 0
  Watch x t u =
      (t ≡ u) ⊎ ((op : Op) × Waits t op × ((apply_op op x).0 ≡ x) × (u ≡ seen op (apply_op op x).1))

  -- A call takes effect, once; or the calls of some goroutines see the state.
  pub data Commit (a b : Abstract) : Type 0 where
    acts :
        (i : ℕ) (op : Op)
        → Waits (a.status i) op
        → b ≡ record {
          state = (apply_op op a.state).0;
          status = update a.status i (done (apply_op op a.state).1);
        }
        → Commit a b
    sees : b.state ≡ a.state → ((i : ℕ) → Watch a.state (a.status i) (b.status i)) → Commit a b

  pub data Commits : Abstract → Abstract → Type 0 where
    nothing : {a : Abstract} → Commits a a
    then : {a c b : Abstract} → Commit a c → Commits c b → Commits a b

  -- What goroutine `i` may show.
  pub data Shows (a : Abstract) (i : ℕ) (b : Abstract) : Event o → Type 0 where
    inside : {e : Event o} → e ≡ tau → b ≡ a → Shows a i b e
    calls :
        {e : Event o} (op : Op)
        → e ≡ call op
        → a.status i ≡ out
        → b ≡ record a { status = update a.status i (called op) }
        → Shows a i b e
    returns :
        {e : Event o} (r : Response)
        → e ≡ ret r
        → Answers (a.status i) r
        → b ≡ record a { status = update a.status i out }
        → Shows a i b e

  abbrev pub LinStep : Abstract → ℕ → Abstract → Event o → Type 0
  LinStep a i b e = (c : Abstract) × Shows a i c e × Commits c b

  pub data LinRun : Abstract → List (ℕ × Event o) → Abstract → Type 0 where
    end : {a : Abstract} → LinRun a [] a
    step :
        {a b c : Abstract} {i : ℕ} {e : Event o} {es : List (ℕ × Event o)}
        → LinStep a i b e
        → LinRun b es c
        → LinRun a ((i, e) ∷ es) c

  -- The object at the start: nobody has called.
  abbrev pub unused : State → Abstract
  unused x = record { state = x; status = λ i. out }
