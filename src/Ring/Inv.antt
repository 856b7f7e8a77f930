-- ===== src/Ring/Inv.antt =====
-- The counters of a ring of core/ringbuffer.h: their range, and where they point.
use Prim.Native.Nat.{◌∣◌}
use native.Mathlib.Nat.{mod-lt, mod-mod_of_dvd, dvd_of_mod-eq-zero}
use box_kernel.Base.{
  ℕ, ◌+◌, ◌-◌, ◌%◌, ◌^◌, ◌≤◌, ◌<◌, ◌≡◌, refl, sym, ◌∙◌, ap, true, arith, bit_and, u64, sub64,
  bit_and-mask,
}
use box_kernel.Ring.{
  RingBuffer, ring_buffer_size, deck_queue_size, slot_index, ring_init, ring_count, ring_push,
  ring_pop,
}

-- What a ring needs of its size: it is a power of two below the counters' modulus. The source
-- asserts the power of two (`_Static_assert`) for RING_BUFFER_SIZE.
pub record IsRingSize (size : ℕ) : Type 0 where
  pub bits : ℕ
  pub power : size ≡ 2 ^ bits
  pub positive : 0 < size
  pub small : size < 2 ^ 64
  pub divides : size ∣ 2 ^ 64

pub ring_buffer_size-IsRingSize : IsRingSize ring_buffer_size
ring_buffer_size-IsRingSize = record {
  bits = 8;
  power = refl;
  positive = omega arith;
  small = omega arith;
  divides = dvd_of_mod-eq-zero 256 refl;
}

pub deck_queue_size-IsRingSize : IsRingSize deck_queue_size
deck_queue_size-IsRingSize = record {
  bits = 7;
  power = refl;
  positive = omega arith;
  small = omega arith;
  divides = dvd_of_mod-eq-zero 128 refl;
}

module _ {ℓ} {A : Type ℓ} (size : ℕ) where
  pub record IsValid (r : RingBuffer A) : Type 0 where
    pub head_range : r.head < 2 ^ 64
    pub tail_range : r.tail < 2 ^ 64
    pub fits : sub64 r.tail r.head ≤ size

module _ {size : ℕ} (s : IsRingSize size) where
  -- The mask takes the remainder by the size.
  pub slot_index-mod : (c : ℕ) → slot_index size c ≡ c % size
  slot_index-mod c =
      ap (λ (n : ℕ). bit_and c (n - 1)) s.power
      ∙ bit_and-mask s.bits c
      ∙ ap (λ (n : ℕ). c % n) (sym s.power)

  -- A counter that wraps at `2 ^ 64` stays at its slot.
  pub slot_index-u64 : (c : ℕ) → slot_index size (u64 c) ≡ c % size
  slot_index-u64 c = slot_index-mod (u64 c) ∙ mod-mod_of_dvd size c s.divides

  -- Every access of push and pop is inside the array.
  pub slot_index-lt : (c : ℕ) → slot_index size c < size
  slot_index-lt c = rw (slot_index-mod c) (mod-lt c s.positive)

  module _ {ℓ} {A : Type ℓ} where
    pub ring_init-IsValid : (r : RingBuffer A) → IsValid size (ring_init r)
    unfolding ring_init
    ring_init-IsValid r = record {
      head_range = omega arith;
      tail_range = omega arith;
      fits = omega arith;
    }

    pub ring_push-IsValid :
        {r : RingBuffer A} (x : A) → IsValid size r → IsValid size (ring_push size r x).1
    unfolding ring_push
    ring_push-IsValid x v = ground (arith, s.small)

    pub ring_pop-IsValid : {r : RingBuffer A} → IsValid size r → IsValid size (ring_pop size r).1
    unfolding ring_pop
    ring_pop-IsValid v = ground (arith, s.small)

    -- What a push or a pop does to the count.
    pub ring_count-ring_push :
        {r : RingBuffer A} (x : A)
        → IsValid size r
        → (ring_push size r x).0 ≡ true
        → ring_count (ring_push size r x).1 ≡ ring_count r + 1
    unfolding ring_push ring_count
    ring_count-ring_push x v h = ground (arith, s.small)
