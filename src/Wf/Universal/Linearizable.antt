-- ===== src/Wf/Universal/Linearizable.antt =====
-- wf/stack.go: whatever the schedule, the operations take effect one at a time, in an order that
-- every participant agrees on.
use mathlib.Core.Path.{subst}
use native.Mathlib.Decide.{ℕ_discrete}
use lockfree.Base.{
  ℕ, ◌≤◌, ◌<◌, ◌≡◌, ◌≢◌, ◌⊎◌, inl, inr, refl, sym, ap, ◌∙◌, arith, List, [], ◌∷◌, update,
  update_self, update_ne,
}
use lockfree.Wf.Universal.{Object, Mem, Turn, System, unregistered}
use lockfree.Wf.Universal.Access.{new, access, step, run}
use lockfree.Wf.Universal.History.{Order, Shared, PcOk, Extends}
use lockfree.Wf.Universal.Stable.{PcOk-stays}
use lockfree.Wf.Universal.Linking.{access-Outcome}

module _ (o : Object) where
  -- No participant has a handle yet.
  unfoldable pub at_rest : System o
  at_rest = record { mem = new o; pc = λ i. unregistered }

  -- The order is the same later, but for the operations that are linked behind it.
  pub record Prefix (g : Order o) (m : Mem o) (g' : Order o) (m' : Mem o) : Type 0 where
    pub len_le : g.len ≤ g'.len
    pub alloc_le : m.alloc ≤ m'.alloc
    pub pos_stays : (a : ℕ) → g.pos a ≢ 0 → g'.pos a ≡ g.pos a
    pub pos_new : (a : ℕ) → g.pos a ≡ 0 → (g'.pos a ≡ 0) ⊎ (g.len < g'.pos a)
    pub result_stays : (p : ℕ) → p ≤ g.len → g'.result p ≡ g.result p
    pub op_stays : (a : ℕ) → a < m.alloc → m'.op a ≡ m.op a

  prefix_refl : (g : Order o) (m : Mem o) → Prefix g m g m
  prefix_refl g m = record {
    len_le = omega arith;
    alloc_le = omega arith;
    pos_stays = λ a h. refl;
    pos_new = λ a h. inl h;
    result_stays = λ p h. refl;
    op_stays = λ a h. refl;
  }

  pub prefix_trans :
      {g1 g2 g3 : Order o} {m1 m2 m3 : Mem o}
      → Prefix g1 m1 g2 m2
      → Prefix g2 m2 g3 m3
      → Prefix g1 m1 g3 m3
  prefix_trans {g1} {g2} {g3} {m1} {m2} {m3} x y =
      let le = x.len_le in
      let le' = y.len_le in
      let al = x.alloc_le in
      let al' = y.alloc_le in
      record {
        len_le = omega arith;
        alloc_le = omega arith;
        pos_stays = λ a h. y.pos_stays a (λ e. h (sym (x.pos_stays a h) ∙ e)) ∙ x.pos_stays a h;
        pos_new = λ a h. elim (x.pos_new a h) [
          | inl out ↦ elim (y.pos_new a out) [
            | inl out' ↦ inl out'
            | inr further ↦ inr (omega arith)
          ]
          | inr further ↦ let same = y.pos_stays a (λ e. omega arith) in inr (omega arith)
        ];
        result_stays = λ p h. y.result_stays p (omega arith) ∙ x.result_stays p h;
        op_stays = λ a h. y.op_stays a (omega arith) ∙ x.op_stays a h;
      }

  Extends-Prefix :
      {i : ℕ} {g g' : Order o} {m m' : Mem o} → Extends o i g m g' m' → Prefix g m g' m'
  Extends-Prefix x = record {
    len_le = x.len_le;
    alloc_le = x.alloc_le;
    pos_stays = x.pos_stays;
    pos_new = x.pos_new;
    result_stays = x.result_stays;
    op_stays = x.op_stays;
  }

  -- What holds between any two accesses.
  pub record IsLinked (g : Order o) (s : System o) : Type 0 where
    pub shared : Shared o g s.mem
    pub local : (i : ℕ) → PcOk o g s.mem i (s.pc i)

  abbrev pub Continues : Order o → System o → System o → Type 0
  Continues g s s' = (g' : Order o) × IsLinked g' s' × Prefix g s.mem g' s'.mem

  pub step-Extends :
      (n : ℕ) (g : Order o) (s : System o) (i : ℕ) (t : Turn o)
      → IsLinked g s
      → (g' : Order o) × IsLinked g' (step o n s i t) × Extends o i g s.mem g' (step o n s i t).mem
  unfolding step
  step-Extends n g s i t ok =
      let (g', sh, x, mine) = access-Outcome o n i g s.mem ok.shared t (s.pc i) (ok.local i) in
      (
        g',
        record {
          shared = sh;
          local = λ j. elim (ℕ_discrete i j) [
            | yes same ↦
                subst (λ q. PcOk o g' (step o n s i t).mem j q)
                  (sym (
                    ap (update s.pc i (access o n i t s.mem (s.pc i)).1) (sym same)
                    ∙ update_self s.pc i _))
                  (subst (λ k. PcOk o g' (step o n s i t).mem k (access o n i t s.mem (s.pc i)).1)
                    same mine)
            | no other ↦
                subst (λ q. PcOk o g' (step o n s i t).mem j q) (sym (update_ne s.pc _ other))
                  (PcOk-stays o ok.shared x j (s.pc j) (λ e. other (sym e)) (ok.local j))
          ];
        },
        x,
      )

  pub step-Continues :
      (n : ℕ) (g : Order o) (s : System o) (i : ℕ) (t : Turn o)
      → IsLinked g s
      → Continues g s (step o n s i t)
  step-Continues n g s i t ok =
      let (g', ok', x) = step-Extends n g s i t ok in (g', ok', Extends-Prefix x)

  pub run-Continues :
      (n : ℕ) (g : Order o) (s : System o) (ts : List (ℕ × Turn o))
      → IsLinked g s
      → Continues g s (run o n s ts)
  unfolding run
  run-Continues n g s [] ok = (g, ok, prefix_refl g s.mem)
  run-Continues n g s ((i, t) ∷ ts) ok =
      let (g1, ok1, x1) = step-Continues n g s i t ok in
      let (g2, ok2, x2) = run-Continues n g1 (step o n s i t) ts ok1 in
      (g2, ok2, prefix_trans x1 x2)

  -- The sentinel alone, at position 1.
  abbrev pub sentinel_order : Order o
  sentinel_order = record {
    len = 1;
    log = λ p. 0;
    pos = update (λ a. 0) 0 1;
    result = λ p. (o.initial, o.zero_response);
  }

  pub at_rest-IsLinked : IsLinked sentinel_order at_rest
  unfolding at_rest new
  at_rest-IsLinked = record {
    shared = record {
      sequential = record {
        nonempty = omega arith;
        first = refl;
        first_result = refl;
        next_result = λ p lo hi. absurd (omega arith);
        pos-log = λ p lo hi. omega arith;
        log-pos = λ a h. ground arith;
      };
      fresh = λ a h. ground arith;
      outside = λ a h. (refl, ground arith, ground arith);
      next_pos = λ a b h. ground arith;
      next_nil = λ a h i. ground arith;
      seq_pos = λ a h. refl;
      seq_nil = λ a h i. ground arith;
      seq_res = λ a h. ground arith;
      res_result = λ a r h. ground arith;
      anchor_in = ground arith;
      head_in = λ i f h. ground arith;
      announce_in = λ i a h. ground arith;
    };
    local = λ i. tt;
  }
