-- ===== src/Receiver.antt =====
-- The Receiver: src/kernel/eventdriven/receiver/receiver.h and receiver.c. It validates the events
-- of user space, gives each an id and a timestamp, and passes it on to Center's ring. `rdtsc()` is
-- a parameter: the time that it returns. What the consumer of Center's ring does while the Receiver
-- waits is the parameter `pause` (Ring/Wait).
pub mod Validate
pub mod Process
use box_kernel.Base.{
  ℕ, zero, suc, ◌+◌, ◌*◌, ◌^◌, Bool, true, false, not, ◌&&◌, ◌||◌, List, [], ◌∷◌, ltb, leb, ◌==◌,
  if◌then◌else◌, u64,
}
use box_kernel.Ring.{RingBuffer, ring_buffer_size}
use box_kernel.Ring.Wait.{push_wait, push_timeout}
use box_kernel.Events.{Event, read_u64}
use box_kernel.Events.EventType

pub record ReceiverStats : Type 0 where
  pub events_received : ℕ
  pub events_validated : ℕ
  pub events_rejected : ℕ
  pub events_forwarded : ℕ

-- the Receiver's globals
pub record Receiver : Type 0 where
  pub global_event_id_counter : ℕ
  pub stats : ReceiverStats

unfoldable pub receiver_init : Receiver
receiver_init = record {
  global_event_id_counter = 1;
  stats = record {
    events_received = 0;
    events_validated = 0;
    events_rejected = 0;
    events_forwarded = 0;
  };
}

-- The atomic increment returns the new value.
unfoldable pub receiver_generate_event_id : Receiver → ℕ × Receiver
receiver_generate_event_id r =
    let id = u64 (r.global_event_id_counter + 1) in (id, record r { global_event_id_counter = id })

unfoldable pub has_nul : List ℕ → Bool
has_nul [] = false
has_nul (b ∷ bs) = (b == 0) || has_nul bs

unfoldable pub receiver_validate_event : Event → Bool
receiver_validate_event event =
    if (event.type == EventType.event_none) || leb EventType.event_max event.type
    then false
    else if event.user_id == 0
    then false
    else if not (event.id == 0)
    then false
    else if event.type == EventType.memory_alloc
    then not ((read_u64 0 event.payload == 0) || ltb (2 ^ 32) (read_u64 0 event.payload))
    else if event.type == EventType.file_open
    then has_nul event.payload
    else true

abbrev pub count_received : ReceiverStats → ReceiverStats
count_received s = record s { events_received = u64 (s.events_received + 1) }

abbrev pub count_validated : ReceiverStats → ReceiverStats
count_validated s = record s { events_validated = u64 (s.events_validated + 1) }

abbrev pub count_rejected : ReceiverStats → ReceiverStats
count_rejected s = record s { events_rejected = u64 (s.events_rejected + 1) }

abbrev pub count_forwarded : ReceiverStats → ReceiverStats
count_forwarded s = record s { events_forwarded = u64 (s.events_forwarded + 1) }

-- The event as it is sent on: its id and timestamp are the kernel's.
abbrev pub stamped : ℕ → ℕ → Event → Event
stamped id now event = record event { id = id; timestamp = now }

module _ (pause : ℕ → RingBuffer Event → RingBuffer Event) (now : ℕ) where
  unfoldable pub receiver_process_event :
      Event → Receiver → RingBuffer Event → Receiver × RingBuffer Event
  receiver_process_event event r to_center =
      let received = record r { stats = count_received r.stats } in
      if receiver_validate_event event
      then (let validated = record received { stats = count_validated received.stats } in
          let (id, counted) = receiver_generate_event_id validated in
          let (ok, ring) =
            push_wait ring_buffer_size pause push_timeout to_center (stamped id now event) in
          (
            record counted {
              stats = if ok then count_forwarded counted.stats else count_rejected counted.stats;
            },
            ring,
          ))
      else (record received { stats = count_rejected received.stats }, to_center)
