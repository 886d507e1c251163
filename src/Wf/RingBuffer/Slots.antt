-- ===== src/Wf/RingBuffer/Slots.antt =====
-- wf/ringbuffer.go: cursors wrap at 2 ^ 64, and a mask of ones takes them to slots.
use Prim.Native.Nat.{bit_and, ◌∣◌}
use native.Mathlib.Nat.{
  pow-suc, mod-mod_of_dvd, dvd-mul_right, mul_assoc, pow-le-pow_right, suc-add, zero-add,
}
use lockfree.Base.{
  ℕ, zero, suc, ◌+◌, ◌-◌, ◌*◌, ◌%◌, ◌^◌, ◌≤◌, ◌<◌, ◌≡◌, ◌≢◌, sym, ap, ◌∙◌, length, arith,
}
use lockfree.Base.Bits.{bit_and_mask, pow_pos}
use lockfree.Wf.RingBuffer.{RingBuffer, inc64}
use lockfree.Wf.RingBuffer.Window.{add-mod-ne}
use lockfree.Wf.RingBuffer.Inv.{IsValid, count}

pow-add : (k m : ℕ) → 2 ^ (m + k) ≡ 2 ^ k * 2 ^ m
pow-add k zero = rw (zero-add k) (omega arith)
pow-add k (suc m) =
    rw (suc-add m k, pow-suc 2 (m + k), pow-suc 2 m, pow-add k m) (mul_assoc (2 ^ k) (2 ^ m) 2)

-- A cursor that has wrapped names the slot that it would name otherwise.
pub mod-wrap : (k x : ℕ) → k ≤ 62 → x % 2 ^ 64 % 2 ^ k ≡ x % 2 ^ k
mod-wrap k x small = mod-mod_of_dvd (2 ^ k) x divides
  where
    divides : 2 ^ k ∣ 2 ^ 64
    divides =
        let e : 2 ^ 64 ≡ 2 ^ k * 2 ^ (64 - k) =
          ap (λ (n : ℕ). 2 ^ n) {x = 64} (omega arith) ∙ pow-add k (64 - k) in
        rw e (dvd-mul_right (2 ^ k) (2 ^ (64 - k)))

module _ {ℓ} {A : Type ℓ} (k : ℕ) (rb : RingBuffer A) (v : IsValid k rb) where
  open v use {small, size, mask, head_in, tail_in, within}

  pub cap_small : 2 ^ k ≤ 2 ^ 62
  cap_small = pow-le-pow_right (omega arith) small

  pub slot : (t : ℕ) → bit_and t rb.mask ≡ t % 2 ^ k
  slot t = rw mask (bit_and_mask k t)

  pub slot-lt : (t : ℕ) → t % 2 ^ k < length rb.buf
  slot-lt t = let p = pow_pos k in rw size (omega arith)

  -- `tail` names the slot behind the last element.
  pub tail_slot : rb.tail % 2 ^ k ≡ (rb.head + count rb) % 2 ^ k
  tail_slot =
      let e : rb.tail ≡ (rb.head + count rb) % 2 ^ 64 = omega arith in
      ap (λ (t : ℕ). t % 2 ^ k) e ∙ mod-wrap k (rb.head + count rb) small

  pub inc_slot : (h : ℕ) → inc64 h % 2 ^ k ≡ (h + 1) % 2 ^ k
  inc_slot h = mod-wrap k (h + 1) small

  -- Where there is room, `tail`'s slot is none of the elements'.
  pub tail_slot-ne :
      (j : ℕ) → j < count rb → count rb < 2 ^ k → rb.tail % 2 ^ k ≢ (rb.head + j) % 2 ^ k
  tail_slot-ne j lt room e =
      add-mod-ne rb.head j (count rb) (2 ^ k) lt (omega arith) (sym tail_slot ∙ e)
