-- ===== src/Ring.antt =====
-- The ring buffers: src/kernel/eventdriven/core/ringbuffer.h (EventRingBuffer and
-- ResponseRingBuffer, the same code over two element types) and the deck queue of
-- src/kernel/eventdriven/guide/guide.h (the same code again, over pointers to routing entries).
-- One definition serves the three: the element type and the size are parameters. `head` and `tail`
-- are `uint64_t` counters that run on and wrap; the slot is the counter under the size's mask.
-- Elements are moved whole: the copy by eight bytes is the copy of the element.
pub mod Queue
pub mod Inv
pub mod Refine
pub mod Batch
pub mod Wait
use box_kernel.Base.{
  ℕ, zero, suc, ◌+◌, ◌-◌, Bool, true, false, Option, none, some, List, [], ◌∷◌, bit_and, u64, sub64,
  leb, ◌==◌, if◌then◌else◌, update,
}

-- RING_BUFFER_SIZE and DECK_QUEUE_SIZE
abbrev pub ring_buffer_size : ℕ
ring_buffer_size = 256

abbrev pub deck_queue_size : ℕ
deck_queue_size = 128

pub record RingBuffer {ℓ} (A : Type ℓ) : Type ℓ where
  pub head : ℕ
  pub tail : ℕ
  pub slots : ℕ → A

-- the slot of a counter: `counter & MASK`
abbrev pub slot_index : ℕ → ℕ → ℕ
slot_index size counter = bit_and counter (size - 1)

module _ {ℓ} {A : Type ℓ} where
  -- The slots are left as they are.
  unfoldable pub ring_init : RingBuffer A → RingBuffer A
  ring_init r = record r { head = 0; tail = 0 }

  unfoldable pub ring_count : RingBuffer A → ℕ
  ring_count r = sub64 r.tail r.head

  unfoldable pub ring_is_empty : RingBuffer A → Bool
  ring_is_empty r = r.head == r.tail

module _ {ℓ} {A : Type ℓ} (size : ℕ) where
  unfoldable pub ring_is_full : RingBuffer A → Bool
  ring_is_full r = leb size (sub64 r.tail r.head)

  -- `false` when the ring is full
  unfoldable pub ring_push : RingBuffer A → A → Bool × RingBuffer A
  ring_push r x = if leb size (sub64 r.tail r.head) then (false, r) else (
    true,
    record r { slots = update r.slots (slot_index size r.tail) x; tail = u64 (r.tail + 1) },
  )

  -- `none` when the ring is empty
  unfoldable pub ring_pop : RingBuffer A → Option A × RingBuffer A
  ring_pop r =
      if r.head == r.tail
      then (none, r)
      else (some (r.slots (slot_index size r.head)), record r { head = u64 (r.head + 1) })

  unfoldable pub ring_peek : RingBuffer A → Option A
  ring_peek r = if r.head == r.tail then none else some (r.slots (slot_index size r.head))

  -- The loop stops at the first element that does not fit; the count is what was pushed.
  unfoldable pub ring_push_batch : RingBuffer A → List A → ℕ × RingBuffer A
  ring_push_batch r [] = (0, r)
  ring_push_batch r (x ∷ xs) =
      let (pushed, r') = ring_push r x in
      let rest = ring_push_batch r' xs in if pushed then (rest.0 + 1, rest.1) else (0, r')

  -- At most `max_count` elements; those popped, in order.
  unfoldable pub ring_pop_batch : RingBuffer A → ℕ → List A × RingBuffer A
  ring_pop_batch r zero = ([], r)
  ring_pop_batch r (suc max_count) =
      let (out, r') = ring_pop r in
      elim out [
        | none ↦ ([], r')
        | some x ↦ let rest = ring_pop_batch r' max_count in (x ∷ rest.0, rest.1)
      ]
