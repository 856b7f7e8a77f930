-- ===== src/Tests/Systems.antt =====
-- A run of the pipeline's first two stages.
use box_kernel.Base.{◌≡◌, ◌<◌, refl, true, some, arith}
use box_kernel.Ring.{RingBuffer, ring_buffer_size, ring_count}
use box_kernel.Ring.Inv
use box_kernel.Events.{Event, Response, EventStatus, response_init, read_bytes, routing_entry_init}
use box_kernel.Routing.{routing_table_init}
use box_kernel.Routing.Invariant.{get, init-IsValid, occupied_at}
use box_kernel.Routing.{routing_table_index, bucket_capacity}
use box_kernel.Receiver.{receiver_init, receiver_validate_event}
use box_kernel.Center.{center_init, security_check_event, routed_entry}
use box_kernel.Deck.{deck_init}
use box_kernel.System.{EventDrivenSystem, receive, route}
use box_kernel.System.Travel.{route-receive}
use box_kernel.Tests.Data.{
  wrapped, quiet, quiet-IsConsumer, request, accepted, queues, none_at_first,
}

response : Response
response = response_init 3 EventStatus.success

-- one event from user space, and nothing anywhere else
abbrev one_event : RingBuffer Event
one_event = record { head = 5; tail = 6; slots = λ _. request }

abbrev no_event : RingBuffer Event
no_event = record { head = 0; tail = 0; slots = λ _. request }

one_event-IsValid : Inv.IsValid ring_buffer_size one_event
one_event-IsValid = record {
  head_range = omega arith;
  tail_range = omega arith;
  fits = omega arith;
}

no_event-IsValid : Inv.IsValid ring_buffer_size no_event
no_event-IsValid = record { head_range = omega arith; tail_range = omega arith; fits = omega arith }

abbrev system : EventDrivenSystem
system = record {
  user_to_kernel_ring = one_event;
  receiver_to_center_ring = no_event;
  kernel_to_user_ring = wrapped response;
  receiver = record { global_event_id_counter = 8; stats = receiver_init.stats };
  center = center_init;
  guide = record { routing_table = routing_table_init; queues = queues; scan_position = 0 };
  decks = record {
    operations = deck_init 1;
    storage = deck_init 2;
    hardware = deck_init 3;
    network = deck_init 4;
  };
  execution = record { events_executed = 0; responses_sent = 0; errors = 0 };
  initialized = true;
  running = true;
}

valid_request : receiver_validate_event request ≡ true
unfolding receiver_validate_event read_bytes
valid_request = refl

allowed_request : security_check_event accepted ≡ true
unfolding security_check_event read_bytes
allowed_request = refl

free_slot : occupied_at routing_table_init (routing_table_index 9) < bucket_capacity
unfolding routing_table_init routing_entry_init
free_slot = omega arith

route-receive_example :
    get (route quiet quiet (λ _. 100) (receive quiet quiet (λ _. 100) system)).guide.routing_table 9
    ≡ some (routed_entry 100 accepted)
unfolding ring_count
route-receive_example =
    route-receive quiet quiet (λ _. 100) quiet-IsConsumer system one_event-IsValid refl
      no_event-IsValid refl init-IsValid valid_request allowed_request (omega arith) none_at_first
      free_slot
