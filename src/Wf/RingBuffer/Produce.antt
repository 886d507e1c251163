-- ===== src/Wf/RingBuffer/Produce.antt =====
-- wf/ringbuffer.go, `Put`: each access of the producer keeps the invariant and is a step of the
-- bounded FIFO.
use lockfree.Base.{
  ℕ, suc, ◌+◌, ◌-◌, ◌%◌, ◌^◌, ◌<◌, ◌≡◌, refl, sym, ap, ◌∙◌, List, [], ◌∷◌, ◌++◌, length, get_or,
  set, arith, length-set, get_or-set_self, get_or-set_ne, true, false, leb, leb→le, Bool-cases, inl,
  inr,
}
use lockfree.Wf.RingBuffer.Fifo.{FifoStep, inside, add, refuse}
use lockfree.Wf.RingBuffer.{
  RingBuffer, Producer, Consumer, loaded_tail, has_room, wrote, loaded_head, has_item, read,
  cleared, produce, inc64,
}
use lockfree.Wf.RingBuffer.Window.{window, length-window, window_snoc, window-set_ne}
use lockfree.Wf.RingBuffer.Inv.{count, IsValid, ConsumerOk, Taken, Inv, contents}
use lockfree.Wf.RingBuffer.Slots.{cap_small, slot, slot-lt, tail_slot, tail_slot-ne}

module _ {ℓ} {A : Type ℓ} (blank : A) (k : ℕ) where
  pub length-contents :
      (rb : RingBuffer A) (c : Consumer A)
      → ConsumerOk rb c
      → length (contents blank k rb c) ≡ count rb
  length-contents rb (cleared h x) ok =
      omega (arith, length-window blank (2 ^ k) rb.buf (rb.head + 1) (count rb - 1))
  length-contents rb Consumer.resting ok = length-window blank (2 ^ k) rb.buf rb.head (count rb)
  length-contents rb c ok = length-window blank (2 ^ k) rb.buf rb.head (count rb)

  module _ (rb : RingBuffer A) (v : IsValid k rb) (room : count rb < 2 ^ k) (x : A) where
    abbrev filled : RingBuffer A
    filled = record rb { buf = set rb.buf (rb.tail % 2 ^ k) x }

    contents-filled :
        (c : Consumer A) → ConsumerOk rb c → contents blank k filled c ≡ contents blank k rb c
    contents-filled (cleared h y) ok =
        ap (λ (xs : List A). y ∷ xs)
          (window-set_ne blank (2 ^ k) rb.buf (rb.head + 1) (count rb - 1) (rb.tail % 2 ^ k) x
            (λ j lt e.
              tail_slot-ne k rb v (j + 1) (omega arith) room
                (e ∙ ap (λ (n : ℕ). n % 2 ^ k) {x = rb.head + 1 + j} (omega arith))))
    contents-filled Consumer.resting ok =
        window-set_ne blank (2 ^ k) rb.buf rb.head (count rb) (rb.tail % 2 ^ k) x
          (λ j lt. tail_slot-ne k rb v j lt room)
    contents-filled c ok =
        window-set_ne blank (2 ^ k) rb.buf rb.head (count rb) (rb.tail % 2 ^ k) x
          (λ j lt. tail_slot-ne k rb v j lt room)

    Taken-filled : (c : Consumer A) → ConsumerOk rb c → Taken blank k rb c → Taken blank k filled c
    Taken-filled (read h y) ok taken =
        get_or-set_ne rb.buf x blank (λ e.
          tail_slot-ne k rb v 0 ok.1 room
            (e ∙ ap (λ (n : ℕ). n % 2 ^ k) {x = rb.head} (omega arith)))
        ∙ taken
    Taken-filled Consumer.resting ok taken = tt
    Taken-filled c ok taken = tt

    filled-IsValid : IsValid k filled
    filled-IsValid = record {
      small = v.small;
      size = length-set rb.buf (rb.tail % 2 ^ k) x ∙ v.size;
      mask = v.mask;
      head_in = v.head_in;
      tail_in = v.tail_in;
      within = v.within;
    }

    filled-ConsumerOk : (c : Consumer A) → ConsumerOk rb c → ConsumerOk filled c
    filled-ConsumerOk Consumer.resting ok = tt
    filled-ConsumerOk (loaded_head h) ok = ok
    filled-ConsumerOk (has_item h) ok = ok
    filled-ConsumerOk (read h y) ok = ok
    filled-ConsumerOk (cleared h y) ok = ok

    abbrev published : RingBuffer A
    published = record rb { tail = inc64 rb.tail }

    count-published : count published ≡ suc (count rb)
    count-published =
        let small = cap_small k rb v in
        let head_in = v.head_in in let tail_in = v.tail_in in omega arith

    appended :
        get_or rb.buf (rb.tail % 2 ^ k) blank ≡ x
        → window blank (2 ^ k) rb.buf rb.head (count published)
          ≡ window blank (2 ^ k) rb.buf rb.head (count rb) ++ (x ∷ [])
    appended written =
        ap (λ (n : ℕ). window blank (2 ^ k) rb.buf rb.head n) count-published
        ∙ window_snoc blank (2 ^ k) rb.buf rb.head (count rb)
        ∙ ap (λ (a : A). window blank (2 ^ k) rb.buf rb.head (count rb) ++ (a ∷ []))
            (ap (λ (i : ℕ). get_or rb.buf i blank) (sym (tail_slot k rb v)) ∙ written)

    contents-published :
        (c : Consumer A)
        → ConsumerOk rb c
        → get_or rb.buf (rb.tail % 2 ^ k) blank ≡ x
        → contents blank k published c ≡ contents blank k rb c ++ (x ∷ [])
    contents-published (cleared h y) ok written =
        ap (λ (xs : List A). y ∷ xs)
          (ap (λ (n : ℕ). window blank (2 ^ k) rb.buf (rb.head + 1) n) {y = suc (count rb - 1)}
              (let e = count-published in omega arith)
            ∙ window_snoc blank (2 ^ k) rb.buf (rb.head + 1) (count rb - 1)
            ∙ ap (λ (a : A). window blank (2 ^ k) rb.buf (rb.head + 1) (count rb - 1) ++ (a ∷ []))
                (ap (λ (i : ℕ). get_or rb.buf i blank)
                    (ap (λ (n : ℕ). n % 2 ^ k) {x = rb.head + 1 + (count rb - 1)} (omega arith)
                      ∙ sym (tail_slot k rb v))
                  ∙ written))
    contents-published Consumer.resting ok written = appended written
    contents-published (loaded_head h) ok written = appended written
    contents-published (has_item h) ok written = appended written
    contents-published (read h y) ok written = appended written

    published-IsValid : IsValid k published
    published-IsValid = record {
      small = v.small;
      size = v.size;
      mask = v.mask;
      head_in = v.head_in;
      tail_in = omega arith;
      within = let e = count-published in omega arith;
    }

    published-ConsumerOk : (c : Consumer A) → ConsumerOk rb c → ConsumerOk published c
    published-ConsumerOk Consumer.resting ok = tt
    published-ConsumerOk (loaded_head h) ok = ok
    published-ConsumerOk (has_item h) ok = let e = count-published in omega arith
    published-ConsumerOk (read h y) ok = let e = count-published in omega arith
    published-ConsumerOk (cleared h y) ok = let e = count-published in omega arith

    published-Taken : (c : Consumer A) → Taken blank k rb c → Taken blank k published c
    published-Taken (read h y) taken = taken
    published-Taken Consumer.resting taken = taken
    published-Taken c taken = tt

  -- Whatever the consumer has in hand, the producer's next access keeps the invariant, and does to
  -- the elements what its event says: `Put` adds `x` behind them where there is room, refuses where
  -- the buffer is full, and changes nothing at any other access.
  pub produce-Fifo :
      (rb : RingBuffer A) (p : Producer A) (c : Consumer A) (x : A)
      → Inv blank k rb p c
      → let (rb', p', e) = produce rb p x in
        Inv blank k rb' p' c × FifoStep (2 ^ k) (contents blank k rb c) e (contents blank k rb' c)
  unfolding produce
  produce-Fifo rb Producer.resting c x inv = (
    record {
      valid = inv.valid;
      prod_ok = refl;
      cons_ok = inv.cons_ok;
      written = tt;
      taken = inv.taken;
    },
    inside refl,
  )
  produce-Fifo rb (loaded_tail y t) c x inv = elim (Bool-cases (leb (length rb.buf) (count rb))) [
    | inl full ↦
        rw (inv.prod_ok, full)
          (
            record {
              valid = inv.valid;
              prod_ok = tt;
              cons_ok = inv.cons_ok;
              written = tt;
              taken = inv.taken;
            },
            refuse (length-contents rb c inv.cons_ok ∙ is_full full) refl,
          )
    | inr room ↦
        rw (inv.prod_ok, room)
          (
            record {
              valid = inv.valid;
              prod_ok = (refl, not_full room);
              cons_ok = inv.cons_ok;
              written = tt;
              taken = inv.taken;
            },
            inside refl,
          )
  ]
    where
      is_full : leb (length rb.buf) (count rb) ≡ true → count rb ≡ 2 ^ k
      is_full full =
          let within = inv.valid.within in
          let size = inv.valid.size in omega (arith, leb→le _ _ full)

      not_full : leb (length rb.buf) (count rb) ≡ false → count rb < 2 ^ k
      not_full room = let size = inv.valid.size in ground arith
  produce-Fifo rb (has_room y t) c x inv =
      let v = inv.valid in
      let room = inv.prod_ok.1 in
      rw (inv.prod_ok.0, slot k rb v rb.tail)
        (
          record {
            valid = filled-IsValid rb v room y;
            prod_ok = (refl, room);
            cons_ok = filled-ConsumerOk rb v room y c inv.cons_ok;
            written = get_or-set_self rb.buf (rb.tail % 2 ^ k) y blank (slot-lt k rb v rb.tail);
            taken = Taken-filled rb v room y c inv.cons_ok inv.taken;
          },
          inside (sym (contents-filled rb v room y c inv.cons_ok)),
        )
  produce-Fifo rb (wrote y t) c x inv =
      let v = inv.valid in
      let room = inv.prod_ok.1 in
      rw inv.prod_ok.0 (
        record {
          valid = published-IsValid rb v room y;
          prod_ok = tt;
          cons_ok = published-ConsumerOk rb v room y c inv.cons_ok;
          written = tt;
          taken = published-Taken rb v room y c inv.taken;
        },
        add y (rw (length-contents rb c inv.cons_ok) room)
            (contents-published rb v room y c inv.cons_ok inv.written),
      )
