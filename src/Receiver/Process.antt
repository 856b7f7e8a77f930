-- ===== src/Receiver/Process.antt =====
-- What the Receiver does with an event, and with a sequence of events. receiver.h.
use box_kernel.Base.{
  ℕ, true, length, ◌+◌, ◌<◌, ◌^◌, ◌≡◌, refl, inl, inr, arith, List, [], ◌∷◌, ◌++◌, append-nil, ◌&&◌,
  Bool-cases, if◌then◌else◌, u64,
}
use box_kernel.Ring.{RingBuffer, ring_buffer_size}
use box_kernel.Ring.Inv
use box_kernel.Ring.Inv.{ring_buffer_size-IsRingSize}
use box_kernel.Ring.Refine.{contents}
use box_kernel.Ring.Wait.{push_wait, push_timeout, IsConsumer, push_wait_lem, push_wait-room}
use box_kernel.Events.{Event}
use box_kernel.Receiver.{
  Receiver, receiver_validate_event, receiver_generate_event_id, receiver_process_event, stamped,
}

-- Each event received is forwarded or rejected, in the counters of 64 bits.
pub record IsBalanced (r : Receiver) : Type 0 where
  pub received_range : r.stats.events_received < 2 ^ 64
  pub counter_range : r.global_event_id_counter < 2 ^ 64
  pub balance : u64 (r.stats.events_forwarded + r.stats.events_rejected) ≡ r.stats.events_received

module _ (pause : ℕ → RingBuffer Event → RingBuffer Event) (now : ℕ) where
  -- Whatever the event and the ring, the counters stay balanced: no event is lost unaccounted.
  pub receiver_process_event-IsBalanced :
      (e : Event) {r : Receiver} (ring : RingBuffer Event)
      → IsBalanced r
      → IsBalanced (receiver_process_event pause now e r ring).0
  unfolding receiver_process_event receiver_generate_event_id
  receiver_process_event-IsBalanced e {r} ring b = ground arith

  module _ (c : IsConsumer ring_buffer_size pause) where
    -- With a valid ring to Center, and a consumer that only takes from its front:
    -- an event that fails the validation changes no id and reaches no ring.
    -- One that passes takes the next id; it goes behind what is left in Center's ring with that id
    -- and the time, or it is dropped and counted as rejected when the wait has run out.
    pub receiver_process_event_lem :
        (e : Event) (r : Receiver) {ring : RingBuffer Event}
        → Inv.IsValid ring_buffer_size ring
        → let (r', ring') = receiver_process_event pause now e r ring in
          let id = u64 (r.global_event_id_counter + 1) in
          let valid = receiver_validate_event e in
          let ok = (push_wait ring_buffer_size pause push_timeout ring (stamped id now e)).0 in
          (r'.global_event_id_counter ≡ (if valid then id else r.global_event_id_counter))
          × (r'.stats.events_forwarded ≡ (
              if valid && ok then u64 (r.stats.events_forwarded + 1) else r.stats.events_forwarded))
          × Inv.IsValid ring_buffer_size ring'
          × ((gone : List Event) × (contents ring_buffer_size ring
                  ++ (if valid && ok then stamped id now e ∷ [] else [])
                ≡ gone ++ contents ring_buffer_size ring'))
    unfolding receiver_process_event receiver_generate_event_id
    receiver_process_event_lem e r {ring} v = elim (Bool-cases (receiver_validate_event e)) [
      | inl ok ↦
          let id = u64 (r.global_event_id_counter + 1) in
          let (valid, sent) =
            push_wait_lem ring_buffer_size-IsRingSize c push_timeout (stamped id now e) v in
          rw ok (ground arith, ground arith, valid, sent)
      | inr bad ↦ rw bad (refl, refl, v, ([], append-nil (contents ring_buffer_size ring)))
    ]

  -- A valid event is delivered when Center's ring is valid and has room: it stands at the end of
  -- the ring, behind all that was there, with the time and the id after the last one given out,
  -- modulo 2^64, and is counted as forwarded. That id is the last one given out afterwards.
  pub receiver_process_event-delivered :
      (e : Event) (r : Receiver) {ring : RingBuffer Event}
      → Inv.IsValid ring_buffer_size ring
      → length (contents ring_buffer_size ring) < ring_buffer_size
      → receiver_validate_event e ≡ true
      → let (r', ring') = receiver_process_event pause now e r ring in
        let id = u64 (r.global_event_id_counter + 1) in
        (contents ring_buffer_size ring' ≡ contents ring_buffer_size ring ++ stamped id now e ∷ [])
        × (r'.global_event_id_counter ≡ id)
        × (r'.stats.events_forwarded ≡ u64 (r.stats.events_forwarded + 1))
        × (r'.stats.events_rejected ≡ r.stats.events_rejected)
  unfolding receiver_process_event receiver_generate_event_id
  receiver_process_event-delivered e r {ring} v room valid =
      let id = u64 (r.global_event_id_counter + 1) in
      let (ok, sent) =
        push_wait-room ring_buffer_size-IsRingSize pause push_timeout (stamped id now e)
          (omega arith) v room in
      rw (valid, ok) (sent, refl, refl, refl)
