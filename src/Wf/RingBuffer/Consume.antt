-- ===== src/Wf/RingBuffer/Consume.antt =====
-- wf/ringbuffer.go, `Get`: each access of the consumer keeps the invariant and is a step of the
-- bounded FIFO.
use lockfree.Base.{
  ℕ, zero, suc, ◌+◌, ◌-◌, ◌%◌, ◌^◌, ◌<◌, ◌≡◌, ◌≢◌, refl, sym, ap, ◌∙◌, List, ◌∷◌, get_or, set,
  arith, length-set, get_or-set_ne, true, false, ◌==◌, ==_iff, Bool-cases, inl, inr,
}
use lockfree.Wf.RingBuffer.Fifo.{FifoStep, inside, take, nothing}
use lockfree.Wf.RingBuffer.{
  RingBuffer, Producer, Consumer, loaded_tail, has_room, wrote, loaded_head, has_item, read,
  cleared, consume, inc64,
}
use lockfree.Wf.RingBuffer.Window.{window, window_congr, window-set_ne, add-mod-ne}
use lockfree.Wf.RingBuffer.Inv.{count, IsValid, ProducerOk, Written, Inv, contents}
use lockfree.Wf.RingBuffer.Slots.{cap_small, slot, tail_slot-ne, inc_slot}

module _ {ℓ} {A : Type ℓ} (blank : A) (k : ℕ) where
  -- The window splits at its first element, wherever there is one.
  window_pos :
      (buf : List A) (h n : ℕ)
      → 0 < n
      → window blank (2 ^ k) buf h n
        ≡ get_or buf (h % 2 ^ k) blank ∷ window blank (2 ^ k) buf (h + 1) (n - 1)
  window_pos buf h zero lt = absurd (omega arith)
  window_pos buf h (suc n) lt =
      ap (λ (m : ℕ). get_or buf (h % 2 ^ k) blank ∷ window blank (2 ^ k) buf (h + 1) m)
        (omega arith)

  module _ (rb : RingBuffer A) (v : IsValid k rb) (item : 0 < count rb) where
    abbrev emptied : RingBuffer A
    emptied = record rb { buf = set rb.buf (rb.head % 2 ^ k) blank }

    emptied-IsValid : IsValid k emptied
    emptied-IsValid = record {
      small = v.small;
      size = length-set rb.buf (rb.head % 2 ^ k) blank ∙ v.size;
      mask = v.mask;
      head_in = v.head_in;
      tail_in = v.tail_in;
      within = v.within;
    }

    emptied-ProducerOk : (p : Producer A) → ProducerOk k rb p → ProducerOk k emptied p
    emptied-ProducerOk Producer.resting ok = tt
    emptied-ProducerOk (loaded_tail x t) ok = ok
    emptied-ProducerOk (has_room x t) ok = ok
    emptied-ProducerOk (wrote x t) ok = ok

    -- The producer has written to another slot.
    emptied-Written :
        (p : Producer A) → ProducerOk k rb p → Written blank k rb p → Written blank k emptied p
    emptied-Written (wrote x t) ok written =
        get_or-set_ne rb.buf blank blank (λ e.
          tail_slot-ne k rb v 0 item ok.1
            (sym e ∙ ap (λ (n : ℕ). n % 2 ^ k) {x = rb.head} (omega arith)))
        ∙ written
    emptied-Written Producer.resting ok written = tt
    emptied-Written p ok written = tt

    -- The item stays an element while its slot is cleared.
    contents-emptied :
        (h : ℕ) (x : A)
        → get_or rb.buf (rb.head % 2 ^ k) blank ≡ x
        → contents blank k rb (read h x) ≡ contents blank k emptied (cleared h x)
    contents-emptied h x taken =
        window_pos rb.buf rb.head (count rb) item
        ∙ rw taken (
            ap (λ (xs : List A). x ∷ xs)
              (sym (
                window-set_ne blank (2 ^ k) rb.buf (rb.head + 1) (count rb - 1) (rb.head % 2 ^ k)
                  blank
                  (λ j lt e.
                    add-mod-ne rb.head 0 (j + 1) (2 ^ k) (omega arith)
                      (let within = v.within in omega arith)
                      (ap (λ (n : ℕ). n % 2 ^ k) {x = rb.head + (j + 1)} (omega arith)
                        ∙ sym e
                        ∙ ap (λ (n : ℕ). n % 2 ^ k) {x = rb.head} (omega arith))))))

    abbrev advanced : RingBuffer A
    advanced = record rb { head = inc64 rb.head }

    count-advanced : count advanced ≡ count rb - 1
    count-advanced =
        let small = cap_small k rb v in
        let head_in = v.head_in in let tail_in = v.tail_in in omega arith

    advanced-IsValid : IsValid k advanced
    advanced-IsValid = record {
      small = v.small;
      size = v.size;
      mask = v.mask;
      head_in = omega arith;
      tail_in = v.tail_in;
      within = let e = count-advanced in let within = v.within in omega arith;
    }

    advanced-ProducerOk : (p : Producer A) → ProducerOk k rb p → ProducerOk k advanced p
    advanced-ProducerOk Producer.resting ok = tt
    advanced-ProducerOk (loaded_tail x t) ok = ok
    advanced-ProducerOk (has_room x t) ok = let e = count-advanced in omega arith
    advanced-ProducerOk (wrote x t) ok = let e = count-advanced in omega arith

    advanced-Written : (p : Producer A) → Written blank k rb p → Written blank k advanced p
    advanced-Written (wrote x t) written = written
    advanced-Written Producer.resting written = written
    advanced-Written p written = tt

    contents-advanced :
        (h : ℕ) (x : A)
        → contents blank k rb (cleared h x) ≡ x ∷ contents blank k advanced Consumer.resting
    contents-advanced h x =
        ap (λ (xs : List A). x ∷ xs)
          (window_congr blank (2 ^ k) rb.buf (rb.head + 1) (inc64 rb.head) (count rb - 1)
              (sym (inc_slot k rb v rb.head))
            ∙ ap (λ (n : ℕ). window blank (2 ^ k) rb.buf (inc64 rb.head) n) (sym count-advanced))

  -- Whatever the producer has in hand, the consumer's next access keeps the invariant, and does to
  -- the elements what its event says: `Get` takes the oldest, returns nothing where there is none,
  -- and changes nothing at any other access.
  pub consume-Fifo :
      (rb : RingBuffer A) (p : Producer A) (c : Consumer A)
      → Inv blank k rb p c
      → let (rb', c', e) = consume blank rb c in
        Inv blank k rb' p c' × FifoStep (2 ^ k) (contents blank k rb c) e (contents blank k rb' c')
  unfolding consume
  consume-Fifo rb p Consumer.resting inv = (
    record {
      valid = inv.valid;
      prod_ok = inv.prod_ok;
      cons_ok = refl;
      written = inv.written;
      taken = tt;
    },
    inside refl,
  )
  consume-Fifo rb p (loaded_head h) inv = elim (Bool-cases (rb.head == rb.tail)) [
    | inl none_in ↦
        rw (inv.cons_ok, none_in)
          (
            record {
              valid = inv.valid;
              prod_ok = inv.prod_ok;
              cons_ok = tt;
              written = inv.written;
              taken = tt;
            },
            nothing (ap (λ (n : ℕ). window blank (2 ^ k) rb.buf rb.head n) (is_empty none_in)) refl,
          )
    | inr some_in ↦
        rw (inv.cons_ok, some_in)
          (
            record {
              valid = inv.valid;
              prod_ok = inv.prod_ok;
              cons_ok = (refl, has_some some_in);
              written = inv.written;
              taken = tt;
            },
            inside refl,
          )
  ]
    where
      is_empty : (rb.head == rb.tail) ≡ true → count rb ≡ 0
      is_empty e =
          let same = (==_iff rb.head rb.tail).0 e in let head_in = inv.valid.head_in in omega arith

      has_some : (rb.head == rb.tail) ≡ false → 0 < count rb
      has_some e =
          let head_in = inv.valid.head_in in
          let tail_in = inv.valid.tail_in in
          let apart : rb.head ≢ rb.tail = ground arith in omega arith
  consume-Fifo rb p (has_item h) inv =
      rw (inv.cons_ok.0, slot k rb inv.valid rb.head)
        (
          record {
            valid = inv.valid;
            prod_ok = inv.prod_ok;
            cons_ok = (refl, inv.cons_ok.1);
            written = inv.written;
            taken = refl;
          },
          inside refl,
        )
  consume-Fifo rb p (read h x) inv =
      let v = inv.valid in
      let item = inv.cons_ok.1 in
      rw (inv.cons_ok.0, slot k rb v rb.head)
        (
          record {
            valid = emptied-IsValid rb v item;
            prod_ok = emptied-ProducerOk rb v item p inv.prod_ok;
            cons_ok = (refl, item);
            written = emptied-Written rb v item p inv.prod_ok inv.written;
            taken = tt;
          },
          inside (contents-emptied rb v item rb.head x inv.taken),
        )
  consume-Fifo rb p (cleared h x) inv =
      let v = inv.valid in
      let item = inv.cons_ok.1 in
      rw inv.cons_ok.0 (
        record {
          valid = advanced-IsValid rb v item;
          prod_ok = advanced-ProducerOk rb v item p inv.prod_ok;
          cons_ok = tt;
          written = advanced-Written rb v item p inv.written;
          taken = tt;
        },
        take x (contents-advanced rb v item rb.head x),
      )
