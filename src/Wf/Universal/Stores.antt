-- ===== src/Wf/Universal/Stores.antt =====
-- wf/stack.go: the stores that move no operation in the order.
use mathlib.Core.Path.{fun_ext}
use native.Mathlib.Decide.{ℕ_discrete}
use lockfree.Base.{
  ℕ, ◌+◌, ◌≤◌, ◌<◌, ◌≡◌, ◌≢◌, inl, refl, ap, ◌∙◌, Option, none, some, arith, update,
}
use lockfree.Wf.Universal.{Object, Mem, announced}
use lockfree.Wf.Universal.Access.{start}
use lockfree.Wf.Universal.History.{Order, Shared, Extends}

module _ (o : Object) (i : ℕ) (g : Order o) (m : Mem o) (sh : Shared o g m) where
  -- A store to `head[i]`, to the handle cursor, to `announce` or to the anchor changes no node.
  pub store-Extends :
      (c anc : ℕ) (ann : ℕ → Option ℕ) (f : Option ℕ)
      → Extends o i g m g
          (record m { cursor = c; anchor = anc; announce = ann; head = update m.head i f })
  store-Extends c anc ann f = record {
    len_le = omega arith;
    len_next = omega arith;
    alloc_le = omega arith;
    pos_stays = λ a h. refl;
    pos_new = λ a h. inl h;
    result_stays = λ p h. refl;
    op_stays = λ a h. refl;
    seq_stays = λ a h. refl;
    next_stays = λ a b h. h;
    res_stays = λ a r h. h;
    head_stays = λ j ne. ground arith;
  }

  pub quiet-Extends :
      (c anc : ℕ) (ann : ℕ → Option ℕ)
      → Extends o i g m g (record m { cursor = c; anchor = anc; announce = ann })
  quiet-Extends c anc ann = record {
    len_le = omega arith;
    len_next = omega arith;
    alloc_le = omega arith;
    pos_stays = λ a h. refl;
    pos_new = λ a h. inl h;
    result_stays = λ p h. refl;
    op_stays = λ a h. refl;
    seq_stays = λ a h. refl;
    next_stays = λ a b h. h;
    res_stays = λ a r h. h;
    head_stays = λ j ne. refl;
  }

  pub quiet-Shared :
      (c anc : ℕ) (ann : ℕ → Option ℕ)
      → m.seq anc ≢ 0
      → ((j a : ℕ) → ann j ≡ some a → a < m.alloc)
      → Shared o g (record m { cursor = c; anchor = anc; announce = ann })
  quiet-Shared c anc ann anchor_in announce_in = record {
    sequential = record {
      nonempty = sh.sequential.nonempty;
      first = sh.sequential.first;
      first_result = sh.sequential.first_result;
      next_result = sh.sequential.next_result;
      pos-log = sh.sequential.pos-log;
      log-pos = sh.sequential.log-pos;
    };
    fresh = sh.fresh;
    outside = sh.outside;
    next_pos = sh.next_pos;
    next_nil = sh.next_nil;
    seq_pos = sh.seq_pos;
    seq_nil = sh.seq_nil;
    seq_res = sh.seq_res;
    res_result = sh.res_result;
    anchor_in = anchor_in;
    head_in = sh.head_in;
    announce_in = announce_in;
  }

  pub head-Shared :
      (f : ℕ) → m.seq f ≢ 0 → Shared o g (record m { head = update m.head i (some f) })
  head-Shared f f_in = record {
    sequential = record {
      nonempty = sh.sequential.nonempty;
      first = sh.sequential.first;
      first_result = sh.sequential.first_result;
      next_result = sh.sequential.next_result;
      pos-log = sh.sequential.pos-log;
      log-pos = sh.sequential.log-pos;
    };
    fresh = sh.fresh;
    outside = sh.outside;
    next_pos = sh.next_pos;
    next_nil = sh.next_nil;
    seq_pos = sh.seq_pos;
    seq_nil = sh.seq_nil;
    seq_res = sh.seq_res;
    res_result = sh.res_result;
    anchor_in = sh.anchor_in;
    head_in = λ j b e. elim (ℕ_discrete i j) [
      | yes same ↦ let found : f ≡ b = ground arith in λ z. f_in (ap m.seq found ∙ z)
      | no other ↦ sh.head_in j b (ground arith)
    ];
    announce_in = sh.announce_in;
  }

  -- An allocated node has the fields that its address had: none of them was ever set.
  update-none : {A : Type 0} (f : ℕ → A) (v : A) → f m.alloc ≡ v → update f m.alloc v ≡ f
  update-none f v e = fun_ext (λ a. elim (ℕ_discrete m.alloc a) [
    | yes same ↦ ground (arith, ap f same)
    | no other ↦ ground arith
  ])

  abbrev started : o.Op → Mem o
  started op = record m {
    op = update m.op m.alloc op;
    alloc = m.alloc + 1;
    announce = update m.announce i (some m.alloc);
  }

  pub start-started : (n : ℕ) (op : o.Op) → start o n i op m ≡ (started op, announced m.alloc)
  unfolding start
  start-started n op =
      let out = sh.outside m.alloc (sh.fresh m.alloc (omega arith)) in
      rw (update-none m.next none out.0, update-none m.seq 0 out.1, update-none m.res none out.2)
        refl

  pub started-Extends : (op : o.Op) → Extends o i g m g (started op)
  started-Extends op = record {
    len_le = omega arith;
    len_next = omega arith;
    alloc_le = omega arith;
    pos_stays = λ a h. refl;
    pos_new = λ a h. inl h;
    result_stays = λ p h. refl;
    op_stays = λ a h. ground arith;
    seq_stays = λ a h. refl;
    next_stays = λ a b h. h;
    res_stays = λ a r h. h;
    head_stays = λ j ne. refl;
  }

  log-ne-alloc : (p : ℕ) → 1 ≤ p → p ≤ g.len → m.alloc ≢ g.log p
  log-ne-alloc p lo hi e =
      let here = sh.sequential.pos-log p lo hi in
      let free = sh.fresh (g.log p) (omega arith) in omega arith

  pub started-Shared : (op : o.Op) → Shared o g (started op)
  started-Shared op = record {
    sequential = record {
      nonempty = sh.sequential.nonempty;
      first = sh.sequential.first;
      first_result = sh.sequential.first_result;
      next_result = λ p lo hi.
          let ne = log-ne-alloc (p + 1) (omega arith) (omega arith) in
          sh.sequential.next_result p lo hi ∙ ground arith;
      pos-log = sh.sequential.pos-log;
      log-pos = sh.sequential.log-pos;
    };
    fresh = λ a h. sh.fresh a (omega arith);
    outside = sh.outside;
    next_pos = sh.next_pos;
    next_nil = sh.next_nil;
    seq_pos = sh.seq_pos;
    seq_nil = sh.seq_nil;
    seq_res = sh.seq_res;
    res_result = sh.res_result;
    anchor_in = sh.anchor_in;
    head_in = sh.head_in;
    announce_in = λ j a e. elim (ℕ_discrete i j) [
      | yes same ↦ let found : m.alloc ≡ a = ground arith in omega arith
      | no other ↦ let old = sh.announce_in j a (ground arith) in omega arith
    ];
  }
