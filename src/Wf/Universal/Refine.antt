-- ===== src/Wf/Universal/Refine.antt =====
-- wf/stack.go, wf/deque.go, wf/map.go: the calls of the construction are those of the abstract object,
-- each at the moment at which its node is linked.
use mathlib.Core.Path.{subst}
use native.Mathlib.Decide.{ℕ_discrete, dec_lt}
use lockfree.Base.{
  ℕ, zero, suc, ◌+◌, ◌-◌, ◌≤◌, ◌<◌, ◌≡◌, ◌≢◌, ◌⊎◌, inl, inr, refl, sym, ap, ◌∙◌, Option, none, some,
  List, [], ◌∷◌, update, update_self, update_ne, update_same, arith,
}
use lockfree.Lf.List.Paths.{some_inj}
use lockfree.Linear.{Event}
use lockfree.Linear.Spec.{
  Status, out, called, done, Abstract, Waits, Answers, Shows, Commits, nothing, then, acts, inside,
  calls, returns, LinStep, LinRun, end, step, unused,
}
use lockfree.Wf.Universal.{Object, Result, Mem, Pc, Turn, System, nil_dereference}
use lockfree.Wf.Universal.Access.{new, access, run}
use lockfree.Wf.Universal.Access as Acc
use lockfree.Wf.Universal.History.{Order, IsSequential, Shared, PcOk}
use lockfree.Wf.Universal.Linearizable.{
  at_rest, at_rest-IsLinked, IsLinked, sentinel_order, step-Extends,
}
use lockfree.Wf.Universal.Spec.{Spec, abstract, event, history}
use lockfree.Wf.Universal.Kinds.{mine_of, Kind, within, begins, ends, panics, access-Kind}

module _ {o : Object} (sp : Spec o) where
  -- The status of the call of a node: called until the node is linked, then done.
  abbrev StatusAt : Order o → Mem o → Option ℕ → Status (abstract sp) → Type 0
  StatusAt g m none t = t ≡ out
  StatusAt g m (some b) t =
      ((g.pos b ≡ 0) × (t ≡ called (m.op b))) ⊎ ((g.pos b ≢ 0) × (t ≡ done (g.result (g.pos b)).1))

  -- The abstract object with the calls, in the order `g`, when the participants stand at `pc`.
  record Agrees (g : Order o) (m : Mem o) (pc : ℕ → Pc o) (a : Abstract (abstract sp))
      : Type 0 where
    pub relates : sp.Relates (g.result g.len).0 a.state
    pub status : (i : ℕ) → StatusAt g m (mine_of (pc i)) (a.status i)
    pub owned : (b : ℕ) → b < m.alloc → g.pos b ≡ 0 → (i : ℕ) × (mine_of (pc i) ≡ some b)
    pub single : (i j b : ℕ) → mine_of (pc i) ≡ some b → mine_of (pc j) ≡ some b → i ≡ j
    pub made : (i b : ℕ) → mine_of (pc i) ≡ some b → b < m.alloc

  StatusAt-keeps :
      (g g' : Order o) (m m' : Mem o) (x : Option ℕ) (t : Status (abstract sp))
      → ((b : ℕ)
          → x ≡ some b
          → (g'.pos b ≡ g.pos b)
            × (m'.op b ≡ m.op b)
            × (g.pos b ≢ 0 → g'.result (g.pos b) ≡ g.result (g.pos b)))
      → StatusAt g m x t
      → StatusAt g' m' x t
  StatusAt-keeps g g' m m' none t same h = h
  StatusAt-keeps g g' m m' (some b) t same h =
      let (pos, op, result) = same b refl in
      elim h [
        | inl (free, e) ↦ inl (pos ∙ free, e ∙ ap (λ (x : o.Op). called x) (sym op))
        | inr (linked, e) ↦ inr (
          λ z. linked (sym pos ∙ z),
          e ∙ ap (λ (r : Result o). done r.1) (sym (ap g'.result pos ∙ result linked)),
        )
      ]

  -- Where the order grows by one node, the call of that node takes effect, whoever has linked it.
  commit :
      (g g' : Order o) (m : Mem o) (pc : ℕ → Pc o) (a : Abstract (abstract sp))
      (sh' : Shared o g' m)
      → 1 ≤ g.len
      → ((b : ℕ) → g.pos b ≤ g.len)
      → g'.len ≡ g.len + 1
      → ((b : ℕ) → g.pos b ≢ 0 → g'.pos b ≡ g.pos b)
      → ((b : ℕ) → g.pos b ≡ 0 → (g'.pos b ≡ 0) ⊎ (g.len < g'.pos b))
      → ((p : ℕ) → p ≤ g.len → g'.result p ≡ g.result p)
      → Agrees g m pc a
      → (a' : Abstract (abstract sp)) × Agrees g' m pc a' × Commits (abstract sp) a a'
  commit g g' m pc a sh' some_len pos_le grown stays new results ag =
      let sq = sh'.sequential in
      let b = g'.log g'.len in
      let pos_b : g'.pos b ≡ g'.len = sq.pos-log g'.len (omega arith) (omega arith) in
      let free : g.pos b ≡ 0 = elim (ℕ_discrete (g.pos b) 0) [
        | yes e ↦ e
        | no ne ↦ let e = stays b ne in let le = pos_le b in absurd (omega arith)
      ] in
      let small : b < m.alloc = elim (dec_lt b m.alloc) [
        | yes lt ↦ lt
        | no ge ↦ let z = sh'.fresh b (omega arith) in absurd (omega arith)
      ] in
      let (i, mine) = ag.owned b small free in
      let op = m.op b in
      let t' : Status (abstract sp) = done (sp.apply_op op a.state).1 in
      let waits : a.status i ≡ called op =
        elim (subst (λ x. StatusAt g m x (a.status i)) mine (ag.status i)) [
          | inl (e, at) ↦ at
          | inr (ne, e) ↦ absurd (ne free)
        ] in
      let applied : g'.result g'.len ≡ o.apply_op op (g.result g.len).0 =
        ap g'.result grown
        ∙ sq.next_result g.len some_len (omega arith)
        ∙ ap (λ (p : ℕ). o.apply_op (m.op (g'.log p)) (g'.result g.len).0) (sym grown)
        ∙ ap (λ (r : Result o). o.apply_op op r.0) (results g.len (omega arith)) in
      let (next, answer) = sp.apply-Relates op (g.result g.len).0 a.state ag.relates in
      let same_pos : (c : ℕ) → c ≢ b → g'.pos c ≡ g.pos c = λ c ne. elim (ℕ_discrete (g.pos c) 0) [
        | no linked ↦ stays c linked
        | yes off ↦ elim (new c off) [
          | inl out' ↦ out' ∙ sym off
          | inr far ↦
              let (at, le) = sq.log-pos c (λ z. omega arith) in
              let last : g'.pos c ≡ g'.len = omega arith in absurd (ne (sym at ∙ ap g'.log last))
        ]
      ] in
      let own : StatusAt g' m (some b) t' = inr (
        λ z. omega arith,
        ap (λ (y : o.Response). done y)
            (sym answer
              ∙ ap (λ (r : Result o). r.1) (sym applied)
              ∙ ap (λ (p : ℕ). (g'.result p).1) (sym pos_b)),
      ) in
      (
        record { state = (sp.apply_op op a.state).0; status = update a.status i t' },
        record {
          relates =
              subst (λ (r : Result o). sp.Relates r.0 (sp.apply_op op a.state).0) (sym applied)
                next;
          status = λ j. elim (ℕ_discrete i j) [
            | yes at ↦
                subst (λ k. StatusAt g' m (mine_of (pc k)) (update a.status i t' k)) at
                  (subst (λ x. StatusAt g' m x (update a.status i t' i)) (sym mine)
                    (subst (λ t. StatusAt g' m (some b) t) (sym (update_self a.status i t')) own))
            | no ne ↦
                subst (λ t. StatusAt g' m (mine_of (pc j)) t) (sym (update_ne a.status t' ne))
                  (StatusAt-keeps g g' m m (mine_of (pc j)) (a.status j)
                    (λ c at. (
                      same_pos c
                          (λ z. ne (ag.single i j c (mine ∙ ap (λ (x : ℕ). some x) (sym z)) at)),
                      refl,
                      λ linked. results (g.pos c) (pos_le c),
                    ))
                    (ag.status j))
          ];
          owned = λ c lt off. ag.owned c lt (elim (ℕ_discrete (g.pos c) 0) [
            | yes e ↦ e
            | no linked ↦ absurd (linked (sym (stays c linked) ∙ off))
          ]);
          single = ag.single;
          made = ag.made;
        },
        then (acts i op (subst (λ t. Waits (abstract sp) t op) (sym waits) refl) refl) nothing,
      )

  module _ (g : Order o) (m : Mem o) (pc : ℕ → Pc o) (a : Abstract (abstract sp))
      (ag : Agrees g m pc a) (i : ℕ) (m' : Mem o) (p' : Pc o) where
    -- Participant `i` goes to `p'`, where its call stands at `t'`.
    shown :
        (t' : Status (abstract sp))
        → m.alloc ≤ m'.alloc
        → ((b : ℕ) → b < m.alloc → m'.op b ≡ m.op b)
        → StatusAt g m' (mine_of p') t'
        → ((b : ℕ)
            → b < m'.alloc
            → g.pos b ≡ 0
            → (mine_of p' ≡ some b) ⊎ ((b < m.alloc) × (mine_of (pc i) ≢ some b)))
        → ((b : ℕ) → mine_of p' ≡ some b → b < m'.alloc)
        → ((b j : ℕ) → i ≢ j → mine_of p' ≡ some b → mine_of (pc j) ≢ some b)
        → Agrees g m' (update pc i p') (record a { status = update a.status i t' })
    shown t' le ops here owner own apart =
        let at_i : update pc i p' i ≡ p' = update_self pc i p' in
        let cases : (j b : ℕ)
            → mine_of (update pc i p' j) ≡ some b
            → ((i ≡ j) × (mine_of p' ≡ some b)) ⊎ ((i ≢ j) × (mine_of (pc j) ≡ some b)) =
          λ j b e. elim (ℕ_discrete i j) [
            | yes same ↦ inl (
              same,
              ap (λ (p : Pc o). mine_of p) (sym (ap (update pc i p') (sym same) ∙ at_i)) ∙ e,
            )
            | no ne ↦ inr (ne, ap (λ (p : Pc o). mine_of p) (sym (update_ne pc p' ne)) ∙ e)
          ] in
        record {
          relates = ag.relates;
          status = λ j. elim (ℕ_discrete i j) [
            | yes same ↦
                subst (λ k. StatusAt g m' (mine_of (update pc i p' k)) (update a.status i t' k))
                  same (rw (at_i, update_self a.status i t') here)
            | no ne ↦
                rw (update_ne pc p' ne, update_ne a.status t' ne)
                  (StatusAt-keeps g g m m' (mine_of (pc j)) (a.status j)
                    (λ b e. (refl, ops b (ag.made j b e), λ linked. refl)) (ag.status j))
          ];
          owned = λ b lt off. elim (owner b lt off) [
            | inl mine ↦ (i, ap (λ (p : Pc o). mine_of p) at_i ∙ mine)
            | inr (old, other) ↦
                let (j, mine) = ag.owned b old off in
                let ne : i ≢ j = λ e. other (ap (λ (k : ℕ). mine_of (pc k)) e ∙ mine) in
                (j, ap (λ (p : Pc o). mine_of p) (update_ne pc p' ne) ∙ mine)
          ];
          single = λ j k b e e'. elim (cases j b e) [
            | inl (at_j, mine) ↦ elim (cases k b e') [
              | inl (at_k, mine') ↦ sym at_j ∙ at_k
              | inr (ne, other) ↦ absurd (apart b k ne mine other)
            ]
            | inr (ne, other) ↦ elim (cases k b e') [
              | inl (at_k, mine) ↦ absurd (apart b j ne mine other)
              | inr (ne', other') ↦ ag.single j k b other other'
            ]
          ];
          made = λ j b e. elim (cases j b e) [
            | inl (at_j, mine) ↦ own b mine
            | inr (ne, other) ↦ let lt = ag.made j b other in omega arith
          ];
        }

    Kind-Shows :
        (e : Event (abstract sp))
        → Shared o g m
        → PcOk o g m i (pc i)
        → p' ≢ nil_dereference
        → ((b : ℕ) → b < m.alloc → m'.op b ≡ m.op b)
        → Kind sp m (pc i) p' m' e
        → (c : Abstract (abstract sp)) × Agrees g m' (update pc i p') c
          × Shows (abstract sp) a i c e
    Kind-Shows e sh ok safe ops (within same all quiet) = (
      record a { status = update a.status i (a.status i) },
      shown (a.status i) (omega arith) ops
          (rw same (
            StatusAt-keeps g g m m' (mine_of (pc i)) (a.status i)
              (λ b at. (refl, ops b (ag.made i b at), λ linked. refl)) (ag.status i)))
          (λ b lt off.
            let (j, mine) = ag.owned b (omega arith) off in
            elim (ℕ_discrete i j) [
              | yes at ↦ inl (same ∙ ap (λ (k : ℕ). mine_of (pc k)) at ∙ mine)
              | no ne ↦ inr (omega arith, λ z. ne (ag.single i j b z mine))
            ])
          (λ b at. let lt = ag.made i b (sym same ∙ at) in omega arith)
          (λ b j ne at z. ne (ag.single i j b (sym same ∙ at) z)),
      inside quiet (λ k. record a { status = update_same a.status i refl k }),
    )
    Kind-Shows e sh ok safe ops (begins op free mine all at_op shows) = (
      record a { status = update a.status i (called op) },
      shown (called op) (omega arith) ops
          (rw mine (inl (sh.fresh m.alloc (omega arith), ap (λ (x : o.Op). called x) (sym at_op))))
          (λ b lt off. elim (ℕ_discrete m.alloc b) [
            | yes at ↦ inl (mine ∙ ap (λ (x : ℕ). some x) at)
            | no ne ↦ inr (omega arith, λ z. let w = sym free ∙ z in ground arith)
          ])
          (λ b at. let same = some_inj (sym mine ∙ at) in omega arith)
          (λ b j ne at z.
            let same = some_inj (sym mine ∙ at) in let lt = ag.made j b z in absurd (omega arith)),
      calls op shows (subst (λ x. StatusAt g m x (a.status i)) free (ag.status i)) refl,
    )
    Kind-Shows e sh ok safe ops (ends mine r at back result all shows) =
        let (numbered, res) = result g i ok in
        let linked : g.pos mine ≢ 0 = λ z. numbered (sh.seq_pos mine numbered ∙ z) in
        let none_at : mine_of p' ≡ none = rw back refl in
        let answer : a.status i ≡ done r.1 =
          elim (subst (λ x. StatusAt g m x (a.status i)) at (ag.status i)) [
            | inl (off, z) ↦ absurd (linked off)
            | inr (on, z) ↦ z ∙ ap (λ (y : Result o). done y.1) (sym res)
          ] in
        (
          record a { status = update a.status i out },
          shown out (omega arith) ops (rw none_at refl)
              (λ b lt off. inr (
                omega arith,
                λ z. let same = some_inj (sym at ∙ z) in linked (ap g.pos same ∙ off),
              ))
              (λ b z. let w = sym none_at ∙ z in ground arith)
              (λ b j ne z. let w = sym none_at ∙ z in ground arith),
          returns r.1 shows (subst (λ t. Answers (abstract sp) t r.1) (sym answer) refl) refl,
        )
    Kind-Shows e sh ok safe ops (panics bad) = absurd (safe bad)

  -- Where the order stays, so do the calls.
  rename :
      (g g' : Order o) (m : Mem o) (pc : ℕ → Pc o) (a : Abstract (abstract sp))
      (sh' : Shared o g' m)
      → ((b : ℕ) → g.pos b ≤ g.len)
      → g'.len ≡ g.len
      → ((b : ℕ) → g.pos b ≢ 0 → g'.pos b ≡ g.pos b)
      → ((b : ℕ) → g.pos b ≡ 0 → (g'.pos b ≡ 0) ⊎ (g.len < g'.pos b))
      → ((p : ℕ) → p ≤ g.len → g'.result p ≡ g.result p)
      → Agrees g m pc a
      → Agrees g' m pc a
  rename g g' m pc a sh' pos_le len stays new results ag =
      let same_pos : (c : ℕ) → g'.pos c ≡ g.pos c = λ c. elim (ℕ_discrete (g.pos c) 0) [
        | no linked ↦ stays c linked
        | yes off ↦ elim (new c off) [
          | inl out' ↦ out' ∙ sym off
          | inr far ↦
              let (at, le) = sh'.sequential.log-pos c (λ z. omega arith) in absurd (omega arith)
        ]
      ] in
      record {
        relates =
            subst (λ (r : Result o). sp.Relates r.0 a.state)
              (sym (results g.len (omega arith)) ∙ ap g'.result (sym len)) ag.relates;
        status = λ j.
            StatusAt-keeps g g' m m (mine_of (pc j)) (a.status j)
              (λ c at. (same_pos c, refl, λ linked. results (g.pos c) (pos_le c))) (ag.status j);
        owned = λ c lt off. ag.owned c lt (sym (same_pos c) ∙ off);
        single = ag.single;
        made = ag.made;
      }

  Shared-pos_le : (g : Order o) (m : Mem o) → Shared o g m → (b : ℕ) → g.pos b ≤ g.len
  Shared-pos_le g m sh b = elim (ℕ_discrete (g.pos b) 0) [
    | yes off ↦ omega arith
    | no linked ↦ (sh.sequential.log-pos b linked).1
  ]

  turn-LinStep :
      (n : ℕ) (g : Order o) (s : System o) (a : Abstract (abstract sp)) (i : ℕ) (t : Turn o)
      → IsLinked o g s
      → Agrees g s.mem s.pc a
      → (g' : Order o) × (a' : Abstract (abstract sp)) × IsLinked o g' (Acc.step o n s i t)
        × Agrees g' (Acc.step o n s i t).mem (Acc.step o n s i t).pc a'
        × LinStep (abstract sp) a i a' (event sp t (s.pc i) ((Acc.step o n s i t).pc i))
  unfolding Acc.step
  turn-LinStep n g s a i t ok ag =
      let (g', ok', x) = step-Extends o n g s i t ok in
      let m' = (access o n i t s.mem (s.pc i)).0 in
      let p' = (access o n i t s.mem (s.pc i)).1 in
      let at_i = update_self s.pc i p' in
      let safe : p' ≢ nil_dereference =
        λ z. subst (λ p. PcOk o g' m' i p) (at_i ∙ z) (ok'.local i) in
      let (c, ag1, shows) =
        Kind-Shows g s.mem s.pc a ag i m' p' (event sp t (s.pc i) p') ok.shared (ok.local i) safe
          x.op_stays (access-Kind sp s.mem n i t (s.pc i)) in
      let pos_le = Shared-pos_le g s.mem ok.shared in
      let shows' : Shows (abstract sp) a i c (event sp t (s.pc i) (update s.pc i p' i)) =
        subst (λ p. Shows (abstract sp) a i c (event sp t (s.pc i) p)) (sym at_i) shows in
      let le = x.len_le in
      let le' = x.len_next in
      elim (ℕ_discrete g'.len g.len) [
        | yes len ↦ (
          g',
          c,
          ok',
          rename g g' m' (update s.pc i p') c ok'.shared pos_le len x.pos_stays x.pos_new
              x.result_stays ag1,
          (c, shows', nothing),
        )
        | no ne ↦
            let (a', ag', commits) =
              commit g g' m' (update s.pc i p') c ok'.shared ok.shared.sequential.nonempty pos_le
                (omega arith) x.pos_stays x.pos_new x.result_stays ag1 in
            (g', a', ok', ag', (c, shows', commits))
      ]

  run-LinRun :
      (n : ℕ) (ts : List (ℕ × Turn o)) (g : Order o) (s : System o) (a : Abstract (abstract sp))
      → IsLinked o g s
      → Agrees g s.mem s.pc a
      → (g' : Order o) × (a' : Abstract (abstract sp)) × IsLinked o g' (run o n s ts)
        × LinRun (abstract sp) a (history sp n s ts) a'
  unfolding run history
  run-LinRun n [] g s a ok ag = (g, a, ok, end)
  run-LinRun n ((i, t) ∷ ts) g s a ok ag =
      let (g1, a1, ok1, ag1, first) = turn-LinStep n g s a i t ok ag in
      let (g2, a2, ok2, rest) = run-LinRun n ts g1 (Acc.step o n s i t) a1 ok1 ag1 in
      (g2, a2, ok2, step first rest)

  at_rest-Agrees :
      Agrees (sentinel_order o) (at_rest o).mem (at_rest o).pc (unused (abstract sp) sp.start)
  unfolding at_rest new
  at_rest-Agrees = record {
    relates = sp.start-Relates;
    status = λ i. refl;
    owned = λ b lt off. absurd (ground arith);
    single = λ i j b e. absurd (ground arith);
    made = λ i b e. absurd (ground arith);
  }

  -- A participant that has not dereferenced a nil pointer.
  abbrev pub IsSafe : Pc o → Type 0
  IsSafe nil_dereference = ⊥
  IsSafe p = Unit

  PcOk-IsSafe : (g : Order o) (m : Mem o) (i : ℕ) (p : Pc o) → PcOk o g m i p → IsSafe p
  PcOk-IsSafe g m i nil_dereference ok = ok
  PcOk-IsSafe g m i p ok = tt

  result-Relates :
      (g : Order o) (m : Mem o)
      → IsSequential o g m
      → (k : ℕ) → k < g.len
      → (x : sp.Abstract) × sp.Relates (g.result (k + 1)).0 x
  result-Relates g m q zero lt = (sp.start, rw (q.first_result) sp.start-Relates)
  result-Relates g m q (suc k) lt =
      let (x, r) = result-Relates g m q k (omega arith) in
      let op = m.op (g.log (k + 1 + 1)) in
      let here : k + 1 + 1 ≡ suc k + 1 = omega arith in
      (
        (sp.apply_op op x).0,
        subst (λ (y : Result o). sp.Relates y.0 (sp.apply_op op x).0)
            (sym (q.next_result (k + 1) (omega arith) (omega arith)) ∙ ap g.result here)
            (sp.apply-Relates op (g.result (k + 1)).0 x r).0,
      )

  -- Under every schedule of the participants' accesses, the calls of `apply` start and return as those
  -- of the abstract object do in which each call takes effect at one moment between its start and its
  -- return, with the operation that it was started with and the response that it returns. No
  -- participant dereferences a nil pointer, and every state that is stored as a result stands for one
  -- of the abstract object.
  pub universal_run-LinRun :
      (n : ℕ) (ts : List (ℕ × Turn o))
      → (a : Abstract (abstract sp)) × LinRun
          (abstract sp)
          (unused (abstract sp) sp.start)
          (history sp n (at_rest o) ts)
          a
        × ((i : ℕ) → IsSafe ((run o n (at_rest o) ts).pc i))
        × ((b : ℕ) (r : Result o)
            → (run o n (at_rest o) ts).mem.res b ≡ some r
            → (x : sp.Abstract) × sp.Relates r.0 x)
  universal_run-LinRun n ts =
      let s = run o n (at_rest o) ts in
      let (g, a, ok, lin) =
        run-LinRun n ts (sentinel_order o) (at_rest o) (unused (abstract sp) sp.start)
          (at_rest-IsLinked o) at_rest-Agrees in
      (
        a,
        lin,
        λ i. PcOk-IsSafe g s.mem i (s.pc i) (ok.local i),
        λ b r e.
            let sq = ok.shared.sequential in
            let some_len = sq.nonempty in
            let linked : g.pos b ≢ 0 = λ z.
              let (nx, sq', nil) = ok.shared.outside b z in let w = sym nil ∙ e in ground arith in
            let le = (sq.log-pos b linked).1 in
            let k = g.pos b - 1 in
            let at : k + 1 ≡ g.pos b = omega arith in
            let (x, rel) = result-Relates g s.mem sq k (omega arith) in
            (
              x,
              subst (λ (y : Result o). sp.Relates y.0 x)
                  (ap g.result at ∙ sym (ok.shared.res_result b r e)) rel,
            ),
      )
