-- ===== src/Center.antt =====
-- Center: src/kernel/eventdriven/center/center.h and center.c. It checks an event of the Receiver
-- against the security policy, determines its route and enters it into the routing table. `rdtsc()`
-- is the parameter `now`; what the consumer of the response ring does while Center waits is the
-- parameter `pause` (Ring/Wait). The messages to the console are not modelled.
pub mod Security
pub mod Route
pub mod Process
use box_kernel.Base.{
  ℕ, ◌+◌, ◌*◌, ◌^◌, Bool, true, false, not, ◌&&◌, ◌||◌, List, [], ◌∷◌, ltb, leb, ◌==◌,
  if◌then◌else◌, u64, replicate, set,
}
use box_kernel.Klib.{ℤ, pos, negsuc, strcmp}
use box_kernel.Ring.{RingBuffer, ring_buffer_size}
use box_kernel.Ring.Wait.{push_wait, push_timeout}
use box_kernel.Events.{
  Event, EventStatus, Response, RoutingEntry, read_u64, response_init, routing_entry_init,
  max_routing_steps, deck_prefix_none, deck_prefix_operations, deck_prefix_storage,
  deck_prefix_hardware, deck_prefix_network,
}
use box_kernel.Events.EventType
use box_kernel.Routing.{RoutingTable, routing_table_insert}

pub record CenterStats : Type 0 where
  pub events_processed : ℕ
  pub routes_created : ℕ
  pub routing_errors : ℕ
  pub security_denied : ℕ

-- what Center works on: its counters, the routing table and the ring of responses
pub record Center : Type 0 where
  pub stats : CenterStats
  pub routing_table : RoutingTable
  pub kernel_to_user : RingBuffer Response

unfoldable pub center_init : CenterStats
center_init = record {
  events_processed = 0;
  routes_created = 0;
  routing_errors = 0;
  security_denied = 0;
}

-- the labels of a `switch` that share a branch
abbrev pub one_of : ℕ → List ℕ → Bool
one_of n [] = false
one_of n (m ∷ ms) = (n == m) || one_of n ms

-- "/etc/shadow" and its terminator
abbrev pub shadow_path : List ℕ
shadow_path = b'/' ∷ b'e' ∷ b't' ∷ b'c' ∷ b'/' ∷ b's' ∷ b'h' ∷ b'a' ∷ b'd' ∷ b'o' ∷ b'w' ∷ 0 ∷ []

abbrev pub is_zero : ℤ → Bool
is_zero (pos n) = n == 0
is_zero (negsuc n) = false

unfoldable pub security_check_event : Event → Bool
security_check_event event =
    if one_of event.type (EventType.memory_alloc ∷ EventType.memory_map ∷ [])
    then not (ltb (2 ^ 30) (read_u64 0 event.payload))
    else if one_of event.type
        (EventType.file_open ∷ EventType.file_read ∷ EventType.file_write ∷ [])
    then not (is_zero (strcmp event.payload shadow_path))
    else true

abbrev pub storage_types : List ℕ
storage_types =
    EventType.memory_alloc ∷ EventType.memory_free ∷ EventType.memory_map ∷ EventType.file_open
    ∷ EventType.file_close ∷ EventType.file_read ∷ EventType.file_write ∷ EventType.file_stat
    ∷ EventType.file_create_tagged ∷ EventType.file_query ∷ EventType.file_tag_add
    ∷ EventType.file_tag_remove ∷ EventType.file_tag_get ∷ []

abbrev pub operations_types : List ℕ
operations_types =
    EventType.proc_create ∷ EventType.proc_exit ∷ EventType.proc_kill ∷ EventType.proc_wait
    ∷ EventType.proc_getpid ∷ EventType.proc_signal ∷ EventType.ipc_send ∷ EventType.ipc_recv
    ∷ EventType.ipc_shm_create ∷ EventType.ipc_shm_attach ∷ EventType.ipc_pipe_create ∷ []

abbrev pub hardware_types : List ℕ
hardware_types =
    EventType.timer_create ∷ EventType.timer_cancel ∷ EventType.timer_sleep
    ∷ EventType.timer_getticks ∷ EventType.dev_open ∷ EventType.dev_ioctl ∷ EventType.dev_read
    ∷ EventType.dev_write ∷ []

abbrev pub network_types : List ℕ
network_types =
    EventType.net_socket ∷ EventType.net_connect ∷ EventType.net_send ∷ EventType.net_recv ∷ []

-- the deck that the `switch` puts first; its `default` is OPERATIONS
unfoldable pub first_deck : ℕ → ℕ
first_deck type =
    if one_of type storage_types
    then deck_prefix_storage
    else if one_of type operations_types
    then deck_prefix_operations
    else if one_of type hardware_types
    then deck_prefix_hardware
    else if one_of type network_types
    then deck_prefix_network
    else deck_prefix_operations

unfoldable pub center_determine_route : ℕ → List ℕ
center_determine_route type = set (replicate max_routing_steps deck_prefix_none) 0 (first_deck type)

-- the response to an event that the policy denies
unfoldable pub denied_response : ℕ → Event → Response
unfolding response_init
denied_response now event = record (response_init event.id EventStatus.denied) {
  timestamp = now;
  error_code = 1;
}

-- the entry that an event is routed by
unfoldable pub routed_entry : ℕ → Event → RoutingEntry
unfolding routing_entry_init center_determine_route
routed_entry now event = record (routing_entry_init event.id event) {
  prefixes = center_determine_route event.type;
  created_at = now;
  state = EventStatus.processing;
}

module _ (pause : ℕ → RingBuffer Response → RingBuffer Response) (now : ℕ) where
  -- `true` when the event has been routed. A response that finds no room in time is dropped.
  unfoldable pub center_process_event : Event → Center → Bool × Center
  center_process_event event c =
      let counted = record c.stats { events_processed = u64 (c.stats.events_processed + 1) } in
      if security_check_event event
      then (let (inserted, table) = routing_table_insert c.routing_table (routed_entry now event) in
          if inserted
          then (
            true,
            record c {
              stats = record counted { routes_created = u64 (counted.routes_created + 1) };
              routing_table = table;
            },
          )
          else (
            false,
            record c {
              stats = record counted { routing_errors = u64 (counted.routing_errors + 1) };
              routing_table = table;
            },
          ))
      else (let (_, ring) =
            push_wait ring_buffer_size pause push_timeout c.kernel_to_user
              (denied_response now event) in
          (
            false,
            record c {
              stats = record counted { security_denied = u64 (counted.security_denied + 1) };
              kernel_to_user = ring;
            },
          ))
