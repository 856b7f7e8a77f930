-- ===== src/Events.antt =====
-- The data that the pipeline moves: src/kernel/eventdriven/core/events.h.
-- Fields of fixed width are numbers below their width's modulus; arrays are lists of their length
-- (EVENT_DATA_SIZE bytes, MAX_ROUTING_STEPS prefixes); a `void*` result is the number of its
-- address, 0 for NULL.
pub mod EventType
pub mod Route
pub mod Rings
use box_kernel.Base.{
  ℕ, zero, suc, ◌+◌, ◌*◌, ◌^◌, Bool, true, false, not, ◌&&◌, List, [], ◌∷◌, ◌==◌, if◌then◌else◌,
  get_or, replicate,
}

-- `EventStatus`
pub data EventStatus : Type 0 where
  success pending processing error invalid denied timeout : EventStatus

abbrev pub deck_prefix_none : ℕ
deck_prefix_none = 0

abbrev pub deck_prefix_operations : ℕ
deck_prefix_operations = 1

abbrev pub deck_prefix_storage : ℕ
deck_prefix_storage = 2

abbrev pub deck_prefix_hardware : ℕ
deck_prefix_hardware = 3

abbrev pub deck_prefix_network : ℕ
deck_prefix_network = 4

abbrev pub event_data_size : ℕ
event_data_size = 224

abbrev pub response_data_size : ℕ
response_data_size = 4064

abbrev pub max_routing_steps : ℕ
max_routing_steps = 8

pub record Event : Type 0 where
  pub id : ℕ
  pub user_id : ℕ
  pub timestamp : ℕ
  pub type : ℕ
  pub flags : ℕ
  pub payload : List ℕ

pub record Response : Type 0 where
  pub event_id : ℕ
  pub timestamp : ℕ
  pub status : EventStatus
  pub error_code : ℕ
  pub result_size : ℕ
  pub result : List ℕ

pub record RoutingEntry : Type 0 where
  pub event_id : ℕ
  pub event_copy : Event
  pub prefixes : List ℕ
  pub current_index : ℕ
  pub deck_results : List ℕ
  pub deck_timestamps : List ℕ
  pub created_at : ℕ
  pub completion_flags : ℕ
  pub state : EventStatus
  pub abort_flag : ℕ
  pub error_code : ℕ

unfoldable pub event_init : ℕ → ℕ → Event
event_init type user_id = record {
  id = 0;
  user_id = user_id;
  timestamp = 0;
  type = type;
  flags = 0;
  payload = replicate event_data_size 0;
}

unfoldable pub response_init : ℕ → EventStatus → Response
response_init event_id status = record {
  event_id = event_id;
  timestamp = 0;
  status = status;
  error_code = 0;
  result_size = 0;
  result = replicate response_data_size 0;
}

unfoldable pub routing_entry_init : ℕ → Event → RoutingEntry
routing_entry_init event_id event = record {
  event_id = event_id;
  event_copy = event;
  prefixes = replicate max_routing_steps deck_prefix_none;
  current_index = 0;
  deck_results = replicate max_routing_steps 0;
  deck_timestamps = replicate max_routing_steps 0;
  created_at = 0;
  completion_flags = 0;
  state = EventStatus.pending;
  abort_flag = 0;
  error_code = 0;
}

-- The loops over the prefixes.
unfoldable pub all_none : List ℕ → Bool
all_none [] = true
all_none (p ∷ ps) = p == deck_prefix_none && all_none ps

unfoldable pub first_prefix : List ℕ → ℕ
first_prefix [] = deck_prefix_none
first_prefix (p ∷ ps) = if p == deck_prefix_none then first_prefix ps else p

-- Only the first occurrence: the loop breaks there.
unfoldable pub clear_first : ℕ → List ℕ → List ℕ
clear_first prefix [] = []
clear_first prefix (p ∷ ps) =
    if p == prefix then deck_prefix_none ∷ ps else p ∷ clear_first prefix ps

unfoldable pub routing_entry_is_complete : RoutingEntry → Bool
routing_entry_is_complete entry = all_none entry.prefixes

unfoldable pub routing_entry_get_next_prefix : RoutingEntry → ℕ
routing_entry_get_next_prefix entry = first_prefix entry.prefixes

unfoldable pub routing_entry_clear_prefix : RoutingEntry → ℕ → RoutingEntry
routing_entry_clear_prefix entry prefix = record entry {
  prefixes = clear_first prefix entry.prefixes;
}

-- `*(uint64_t*)(bytes + at)` of a little-endian machine; a byte past the end reads as 0.
unfoldable pub read_bytes : ℕ → ℕ → List ℕ → ℕ
read_bytes zero at bytes = 0
read_bytes (suc n) at bytes = get_or bytes at 0 + 2 ^ 8 * read_bytes n (at + 1) bytes

abbrev pub read_u64 : ℕ → List ℕ → ℕ
read_u64 at bytes = read_bytes 8 at bytes

abbrev pub read_u32 : ℕ → List ℕ → ℕ
read_u32 at bytes = read_bytes 4 at bytes
