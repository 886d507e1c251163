-- ===== src/Wf/Universal/Consensus.antt =====
-- wf/stack.go: the three compare-and-swaps that link an operation and publish its result.
use native.Mathlib.Decide.{ℕ_discrete, dec_lt}
use lockfree.Base.{
  ℕ, ◌+◌, ◌≤◌, ◌<◌, ◌≡◌, ◌≢◌, inl, refl, sym, ap, ◌∙◌, none, some, arith, update, update_self,
}
use lockfree.Wf.Universal.{Object, Mem}
use lockfree.Wf.Universal.History.{Order, Shared, IsSequential, IsAhead, Follows, Extends}

module _ (o : Object) (i : ℕ) (g : Order o) (m : Mem o) (sh : Shared o g m) where
  open o use {apply_op}
  open sh use {sequential}

  -- The first node to be tried behind the last one is linked there.
  module _ (b p : ℕ) (b_in : m.seq b ≢ 0) (p_allocated : p < m.alloc) (ahead : IsAhead o g m b p)
      (last : m.next b ≡ none) where
    abbrev linked_order : Order o
    linked_order = record {
      len = g.len + 1;
      log = update g.log (g.len + 1) p;
      pos = update g.pos p (g.len + 1);
      result = update g.result (g.len + 1) (apply_op (m.op p) (g.result g.len).0);
    }

    abbrev linked_mem : Mem o
    linked_mem = record m { next = update m.next b (some p) }

    b_pos : g.pos b ≢ 0
    b_pos e = b_in (sh.seq_pos b b_in ∙ e)

    b_last : g.pos b ≡ g.len
    b_last = sh.next_nil b last b_pos

    p_new : g.pos p ≡ 0
    p_new = elim (ℕ_discrete (g.pos p) 0) [
      | yes e ↦ e
      | no ne ↦
          let in_range = (sequential.log-pos p ne).1 in let at_b = b_last in absurd (omega arith)
    ]

    linked-ne-p : (a : ℕ) → g.pos a ≢ 0 → p ≢ a
    linked-ne-p a h e = h (ap g.pos (sym e) ∙ p_new)

    p-ne-log : (q : ℕ) → 1 ≤ q → q ≤ g.len → p ≢ g.log q
    p-ne-log q lo hi e =
        let here = sequential.pos-log q lo hi in
        let new = p_new in let same = ap g.pos e in omega arith

    -- A published node stands before every node that is not.
    none_unpublished : (a : ℕ) → m.seq a ≡ 0 → g.pos a ≡ 0
    none_unpublished a e = elim (ℕ_discrete (g.pos a) 0) [
      | yes z ↦ z
      | no ne ↦
          let same : g.pos a ≡ g.pos b = sh.seq_nil a e ne ∙ sym b_last in
          let one : a ≡ b =
            sym (sequential.log-pos a ne).0 ∙ ap g.log same ∙ (sequential.log-pos b b_pos).0 in
          absurd (b_in (ap m.seq (sym one) ∙ e))
    ]

    pub linked-Extends : Extends o i g m linked_order linked_mem
    linked-Extends = record {
      len_le = omega arith;
      len_next = omega arith;
      alloc_le = omega arith;
      pos_stays = λ a h. let ne : p ≢ a = λ e. h (ap g.pos (sym e) ∙ p_new) in ground arith;
      pos_new = λ a h. ground arith;
      result_stays = λ q h. ground arith;
      op_stays = λ a h. refl;
      seq_stays = λ a h. refl;
      next_stays = λ a c h. elim (ℕ_discrete b a) [
        | yes e ↦ let clash : m.next a ≡ none = ap m.next (sym e) ∙ last in cc
        | no ne ↦ ground arith
      ];
      res_stays = λ a r h. h;
      head_stays = λ j ne. refl;
    }

    linked-IsSequential : IsSequential o linked_order linked_mem
    linked-IsSequential = record {
      nonempty = omega arith;
      first = let n = sequential.nonempty in sym (ground arith) ∙ sequential.first;
      first_result = let n = sequential.nonempty in ground (arith, sequential.first_result);
      next_result = λ q lo hi. elim (dec_lt q g.len) [
        | yes old ↦ ground (arith, sequential.next_result q lo old)
        | no new ↦ let e : q ≡ g.len = omega arith in ground arith
      ];
      pos-log = λ q lo hi. elim (dec_lt g.len q) [
        | yes new ↦ let e : q ≡ g.len + 1 = omega arith in ground arith
        | no old ↦ let ne = p-ne-log q lo (omega arith) in ground (arith, sequential.pos-log q lo)
      ];
      log-pos = λ a h. elim (ℕ_discrete p a) [
        | yes e ↦ ground arith
        | no ne ↦ ground (arith, sequential.log-pos a)
      ];
    }

    pub linked-Shared : Shared o linked_order linked_mem
    linked-Shared = record {
      sequential = linked-IsSequential;
      fresh = λ a h. ground (arith, sh.fresh a);
      outside = λ a h.
          let z : g.pos a ≡ 0 = ground arith in
          let ne : b ≢ a = λ e. b_pos (ap g.pos e ∙ z) in
          let (n, q, r) = sh.outside a z in (ground arith, q, r);
      next_pos = λ a c e. elim (ℕ_discrete b a) [
        | yes same ↦
            let found : p ≡ c = ground arith in
            let apart : p ≢ b = λ z. b_pos (ap g.pos (sym z) ∙ p_new) in ground (arith, b_last)
        | no other ↦
            let old : m.next a ≡ some c = ground arith in
            let next = sh.next_pos a c old in
            let new = p_new in
            let a_linked = linked-ne-p a (λ z. cc (sym old ∙ (sh.outside a z).0)) in
            let c_linked = linked-ne-p c (λ z. omega arith) in ground arith
      ];
      next_nil = λ a e h. elim (ℕ_discrete p a) [
        | yes new ↦ ground arith
        | no old ↦
            let here : g.pos a ≢ 0 = ground arith in
            let ne : b ≢ a =
              λ z. cc (sym (update_self m.next b (some p)) ∙ ap linked_mem.next z ∙ e) in
            let at_end : g.pos a ≡ g.pos b = sh.next_nil a (ground arith) here ∙ sym b_last in
            absurd (
              ne (
                sym (sequential.log-pos b b_pos).0
                ∙ ap g.log (sym at_end)
                ∙ (sequential.log-pos a here).0))
      ];
      seq_pos = λ a h.
          let here = sh.seq_pos a h in let ne = linked-ne-p a (λ z. h (here ∙ z)) in ground arith;
      seq_nil = λ a e h. let z = none_unpublished a e in ground arith;
      seq_res = sh.seq_res;
      res_result = λ a r e.
          let here : g.pos a ≢ 0 = λ z. cc (sym e ∙ (sh.outside a z).2) in
          let ne = linked-ne-p a here in
          let inside = (sequential.log-pos a here).1 in sh.res_result a r e ∙ ground arith;
      anchor_in = sh.anchor_in;
      head_in = sh.head_in;
      announce_in = sh.announce_in;
    }

  module _ (b a : ℕ) (follows : Follows o g m b a) where
    b_linked : g.pos b ≢ 0
    b_linked e = follows.0 (sh.seq_pos b follows.0 ∙ e)

    a_pos : g.pos a ≡ g.pos b + 1
    a_pos = sh.next_pos b a follows.1

    -- What a helper computes for `a` is the result at its position.
    pub computed_result : apply_op (m.op a) (g.result (g.pos b)).0 ≡ g.result (g.pos a)
    computed_result =
        let linked = b_linked in
        let next = a_pos in
        let (at, inside) = sequential.log-pos a (λ z. omega arith) in
        let same : g.log (g.pos b + 1) ≡ a = ap g.log (sym next) ∙ at in
        sym (
          ap g.result next
          ∙ sequential.next_result (g.pos b) (omega arith) (omega arith)
          ∙ ap (λ (c : ℕ). apply_op (m.op c) (g.result (g.pos b)).0) same)

    -- The first helper to store a result stores that one.
    abbrev stored_mem : Mem o
    stored_mem = record m { res = update m.res a (some (g.result (g.pos a))) }

    pub stored-Extends : m.res a ≡ none → Extends o i g m g stored_mem
    stored-Extends free = record {
      len_le = omega arith;
      len_next = omega arith;
      alloc_le = omega arith;
      pos_stays = λ c h. refl;
      pos_new = λ c h. inl h;
      result_stays = λ p h. refl;
      op_stays = λ c h. refl;
      seq_stays = λ c h. refl;
      next_stays = λ c d h. h;
      res_stays = λ c r h. elim (ℕ_discrete a c) [
        | yes e ↦ let clash : m.res c ≡ none = ap m.res (sym e) ∙ free in cc
        | no ne ↦ ground arith
      ];
      head_stays = λ j ne. refl;
    }

    pub stored-Shared : Shared o g stored_mem
    stored-Shared = record {
      sequential = record {
        nonempty = sequential.nonempty;
        first = sequential.first;
        first_result = sequential.first_result;
        next_result = sequential.next_result;
        pos-log = sequential.pos-log;
        log-pos = sequential.log-pos;
      };
      fresh = sh.fresh;
      outside = λ c h.
          let next = a_pos in
          let ne : a ≢ c = λ e. let same = ap g.pos e in omega arith in
          let (n, q, r) = sh.outside c h in (n, q, ground arith);
      next_pos = sh.next_pos;
      next_nil = sh.next_nil;
      seq_pos = sh.seq_pos;
      seq_nil = sh.seq_nil;
      seq_res = λ c h. let old = sh.seq_res c h in ground arith;
      res_result = λ c r e. elim (ℕ_discrete a c) [
        | yes same ↦
            let found : g.result (g.pos a) ≡ r = ground arith in
            sym found ∙ ap (λ (d : ℕ). g.result (g.pos d)) same
        | no other ↦ sh.res_result c r (ground arith)
      ];
      anchor_in = sh.anchor_in;
      head_in = sh.head_in;
      announce_in = sh.announce_in;
    }

    -- The first helper to store `seq` stores the position.
    abbrev numbered_mem : Mem o
    numbered_mem = record m { seq = update m.seq a (g.pos a) }

    pub numbered-Extends : m.seq a ≡ 0 → Extends o i g m g numbered_mem
    numbered-Extends free = record {
      len_le = omega arith;
      len_next = omega arith;
      alloc_le = omega arith;
      pos_stays = λ c h. refl;
      pos_new = λ c h. inl h;
      result_stays = λ p h. refl;
      op_stays = λ c h. refl;
      seq_stays = λ c h. let ne : a ≢ c = λ e. h (ap m.seq (sym e) ∙ free) in ground arith;
      next_stays = λ c d h. h;
      res_stays = λ c r h. h;
      head_stays = λ j ne. refl;
    }

    still_in : (c : ℕ) → m.seq c ≢ 0 → numbered_mem.seq c ≢ 0
    still_in c h = let next = a_pos in ground arith

    pub numbered-Shared : m.res a ≢ none → Shared o g numbered_mem
    numbered-Shared has_res = record {
      sequential = record {
        nonempty = sequential.nonempty;
        first = sequential.first;
        first_result = sequential.first_result;
        next_result = sequential.next_result;
        pos-log = sequential.pos-log;
        log-pos = sequential.log-pos;
      };
      fresh = sh.fresh;
      outside = λ c h.
          let next = a_pos in
          let ne : a ≢ c = λ e. let same = ap g.pos e in omega arith in
          let (n, q, r) = sh.outside c h in (n, ground arith, r);
      next_pos = sh.next_pos;
      next_nil = sh.next_nil;
      seq_pos = λ c h. elim (ℕ_discrete a c) [
        | yes e ↦ ground (arith, ap g.pos e)
        | no ne ↦ let old = sh.seq_pos c in ground arith
      ];
      seq_nil = λ c e h. let next = a_pos in let old = sh.seq_nil c in ground arith;
      seq_res = λ c h. elim (ℕ_discrete a c) [
        | yes e ↦ λ z. has_res (ap m.res e ∙ z)
        | no ne ↦ sh.seq_res c (ground arith)
      ];
      res_result = sh.res_result;
      anchor_in = still_in m.anchor sh.anchor_in;
      head_in = λ j f e. still_in f (sh.head_in j f e);
      announce_in = sh.announce_in;
    }
