-- ===== src/Wf/Universal/History.antt =====
-- wf/stack.go: the order in which operations are linked, and what of it holds between any two
-- accesses.
use lockfree.Base.{ℕ, ◌+◌, ◌≤◌, ◌<◌, ◌≡◌, ◌≢◌, ◌⊎◌, none, some}
use lockfree.Wf.Universal.{
  Object, Result, Mem, Pc, got_frontier, stored_head, announced, loaded_anchor, scanning,
  loaded_head, looping, pending, loaded_before, chosen_turn, loaded_cand, preferring, agreed,
  loaded_after, publishing, computed, stored_res, loaded_seq, moving, linked, loaded_res, advancing,
  loaded_cur, swinging, returned, nil_dereference,
}

module _ (o : Object) where
  open o use {initial, apply_op, zero_response}

  -- The nodes linked so far: their number, the node at each position from 1 on, the position of
  -- each node (0 for a node that is not linked), and the result at each position.
  pub record Order : Type 0 where
    pub len : ℕ
    pub log : ℕ → ℕ
    pub pos : ℕ → ℕ
    pub result : ℕ → Result o

  -- The results are those of applying the operations one after another from the initial state, in
  -- the order of their positions; each linked node has one position.
  pub record IsSequential (g : Order) (m : Mem o) : Type 0 where
    pub nonempty : 1 ≤ g.len
    pub first : g.log 1 ≡ 0
    pub first_result : g.result 1 ≡ (initial, zero_response)
    pub next_result :
        (p : ℕ)
        → 1 ≤ p
        → p < g.len
        → g.result (p + 1) ≡ apply_op (m.op (g.log (p + 1))) (g.result p).0
    pub pos-log : (p : ℕ) → 1 ≤ p → p ≤ g.len → g.pos (g.log p) ≡ p
    pub log-pos : (a : ℕ) → g.pos a ≢ 0 → (g.log (g.pos a) ≡ a) × (g.pos a ≤ g.len)

  -- How the fields of the nodes follow the order.
  pub record Shared (g : Order) (m : Mem o) : Type 0 where
    pub sequential : IsSequential g m
    pub fresh : (a : ℕ) → m.alloc ≤ a → g.pos a ≡ 0
    pub outside : (a : ℕ) → g.pos a ≡ 0 → (m.next a ≡ none) × (m.seq a ≡ 0) × (m.res a ≡ none)
    pub next_pos : (a b : ℕ) → m.next a ≡ some b → g.pos b ≡ g.pos a + 1
    pub next_nil : (a : ℕ) → m.next a ≡ none → g.pos a ≢ 0 → g.pos a ≡ g.len
    pub seq_pos : (a : ℕ) → m.seq a ≢ 0 → m.seq a ≡ g.pos a
    pub seq_nil : (a : ℕ) → m.seq a ≡ 0 → g.pos a ≢ 0 → g.pos a ≡ g.len
    pub seq_res : (a : ℕ) → m.seq a ≢ 0 → m.res a ≢ none
    pub res_result : (a : ℕ) (r : Result o) → m.res a ≡ some r → r ≡ g.result (g.pos a)
    pub anchor_in : m.seq m.anchor ≢ 0
    pub head_in : (i f : ℕ) → m.head i ≡ some f → m.seq f ≢ 0
    pub announce_in : (i a : ℕ) → m.announce i ≡ some a → a < m.alloc

  module _ (g : Order) (m : Mem o) where
    -- `a` is not linked at or before `b`.
    abbrev pub IsAhead : ℕ → ℕ → Type 0
    IsAhead b a = (g.pos a ≡ 0) ⊎ (g.pos b < g.pos a)

    -- `b` has a position and `a` is its successor.
    abbrev pub Follows : ℕ → ℕ → Type 0
    Follows b a = (m.seq b ≢ 0) × (m.next b ≡ some a)

    -- What holds of the locals of participant `i`.
    abbrev pub PcOk : ℕ → Pc o → Type 0
    PcOk i (got_frontier f) = m.seq f ≢ 0
    PcOk i (stored_head f) = m.seq f ≢ 0
    PcOk i (announced mine) = mine < m.alloc
    PcOk i (loaded_anchor mine best) = (mine < m.alloc) × (m.seq best ≢ 0)
    PcOk i (scanning mine best best_seq j) = (mine < m.alloc) × (m.seq best ≢ 0)
    PcOk i (loaded_head mine best best_seq j nd) =
        (mine < m.alloc) × (m.seq best ≢ 0) × (m.seq nd ≢ 0)
    PcOk i (looping mine) = (mine < m.alloc) × (m.head i ≢ none)
    PcOk i (pending mine) =
        (mine < m.alloc) × (m.head i ≢ none) × ((f : ℕ) → m.head i ≡ some f → IsAhead f mine)
    PcOk i (loaded_before mine b) = (mine < m.alloc) × (m.seq b ≢ 0) × IsAhead b mine
    PcOk i (chosen_turn mine b j) = (mine < m.alloc) × (m.seq b ≢ 0) × IsAhead b mine
    PcOk i (loaded_cand mine b c) =
        (mine < m.alloc) × (m.seq b ≢ 0) × IsAhead b mine × (c < m.alloc)
    PcOk i (preferring mine b p) = (mine < m.alloc) × (m.seq b ≢ 0) × (p < m.alloc) × IsAhead b p
    PcOk i (agreed mine b) = (mine < m.alloc) × (m.seq b ≢ 0) × (m.next b ≢ none)
    PcOk i (loaded_after mine b a) = (mine < m.alloc) × Follows b a
    PcOk i (publishing mine b a) = (mine < m.alloc) × Follows b a
    PcOk i (computed mine b a br) = (mine < m.alloc) × Follows b a × (br ≡ g.result (g.pos b))
    PcOk i (stored_res mine b a) = (mine < m.alloc) × Follows b a × (m.res a ≢ none)
    PcOk i (loaded_seq mine b a s) =
        (mine < m.alloc) × Follows b a × (m.res a ≢ none) × (s ≡ m.seq b)
    PcOk i (moving mine a) = (mine < m.alloc) × (m.seq a ≢ 0)
    PcOk i (linked mine) = m.seq mine ≢ 0
    PcOk i (loaded_res mine r) = (m.seq mine ≢ 0) × (r ≡ g.result (g.pos mine))
    PcOk i (advancing mine r) = (m.seq mine ≢ 0) × (r ≡ g.result (g.pos mine))
    PcOk i (loaded_cur mine r c) = (m.seq mine ≢ 0) × (r ≡ g.result (g.pos mine))
    PcOk i (swinging mine r c) = (m.seq mine ≢ 0) × (r ≡ g.result (g.pos mine))
    PcOk i (returned mine r) = (m.seq mine ≢ 0) × (r ≡ g.result (g.pos mine))
    PcOk i nil_dereference = ⊥
    PcOk i p = Unit

  -- What an access of participant `i` leaves as it was, in the order `g` and the memory `m`.
  pub record Extends (i : ℕ) (g : Order) (m : Mem o) (g' : Order) (m' : Mem o) : Type 0 where
    pub len_le : g.len ≤ g'.len
    pub len_next : g'.len ≤ g.len + 1
    pub alloc_le : m.alloc ≤ m'.alloc
    pub pos_stays : (a : ℕ) → g.pos a ≢ 0 → g'.pos a ≡ g.pos a
    pub pos_new : (a : ℕ) → g.pos a ≡ 0 → (g'.pos a ≡ 0) ⊎ (g.len < g'.pos a)
    pub result_stays : (p : ℕ) → p ≤ g.len → g'.result p ≡ g.result p
    pub op_stays : (a : ℕ) → a < m.alloc → m'.op a ≡ m.op a
    pub seq_stays : (a : ℕ) → m.seq a ≢ 0 → m'.seq a ≡ m.seq a
    pub next_stays : (a b : ℕ) → m.next a ≡ some b → m'.next a ≡ some b
    pub res_stays : (a : ℕ) (r : Result o) → m.res a ≡ some r → m'.res a ≡ some r
    pub head_stays : (j : ℕ) → j ≢ i → m'.head j ≡ m.head j
