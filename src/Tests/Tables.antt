-- ===== src/Tests/Tables.antt =====
-- Runs of the routing table, the Receiver and Center.
use mathlib.Core.Logic.{◌↔◌}
use box_kernel.Base.{
  ◌≡◌, refl, true, false, ◌&&◌, [], ◌∷◌, none, some, arith, if◌then◌else◌, ltb, ◌==◌,
}
use box_kernel.Ring.{ring_buffer_size, ring_count}
use box_kernel.Ring.Refine.{contents}
use box_kernel.Events.{read_bytes, EventStatus, Response, routing_entry_init, response_init}
use box_kernel.Klib.{strcmp}
use box_kernel.Routing.{
  bucket_capacity, routing_table_index, place, routing_table_init, routing_table_insert,
  routing_table_remove,
}
use box_kernel.Routing.Invariant
use box_kernel.Routing.Invariant.{init-IsValid, get, occupied_at, total-le}
use box_kernel.Routing.Insert.{get-routing_table_insert}
use box_kernel.Routing.Remove.{get-routing_table_remove, is_some}
use box_kernel.Receiver.{receiver_init, receiver_validate_event, receiver_process_event, stamped}
use box_kernel.Receiver.Validate.{IsAcceptable, receiver_validate_event_iff}
use box_kernel.Receiver.Process as ReceiverProcess
use box_kernel.Receiver.Process.{
  receiver_process_event-IsBalanced, receiver_process_event_lem, receiver_process_event-delivered,
}
use box_kernel.Center.{
  Center, center_init, center_process_event, security_check_event, routed_entry,
}
use box_kernel.Center.Security.{IsDenied, security_check_event_iff}
use box_kernel.Center.Process.{center_process_event-allowed}
use box_kernel.Tests.Data.{
  wrapped, wrapped_256-IsValid, quiet, request, accepted, attack, entry, table, table-IsValid,
  none_at_first,
}

-- the id 9 is found, the id 73 is not affected
get-routing_table_insert_example : get (routing_table_insert routing_table_init entry).1 73 ≡ none
unfolding routed_entry routing_table_init routing_table_insert routing_entry_init place
get-routing_table_insert_example =
    get-routing_table_insert init-IsValid entry 73 (omega arith) (omega arith) none_at_first

get-routing_table_remove_example :
    ((routing_table_remove table 9).0 ≡ is_some (get table 9))
    × (get (routing_table_remove table 9).1 9 ≡ none)
get-routing_table_remove_example =
    get-routing_table_remove table-IsValid 9 9 (omega arith) (omega arith)

receiver_validate_event_iff_example :
    (receiver_validate_event request ≡ true) ↔ IsAcceptable request
receiver_validate_event_iff_example = receiver_validate_event_iff request

request_valid : receiver_validate_event request ≡ true
unfolding receiver_validate_event read_bytes
request_valid = refl

receiver_init-IsBalanced : ReceiverProcess.IsBalanced receiver_init
unfolding receiver_init
receiver_init-IsBalanced = record {
  received_range = omega arith;
  counter_range = omega arith;
  balance = refl;
}

receiver_process_event-delivered_example :
    let (r', ring') = receiver_process_event quiet 100 request receiver_init (wrapped accepted) in
    (contents ring_buffer_size ring' ≡ accepted ∷ accepted ∷ stamped 2 100 request ∷ [])
    × (r'.global_event_id_counter ≡ 2)
    × (r'.stats.events_forwarded ≡ 1)
    × (r'.stats.events_rejected ≡ 0)
unfolding ring_count receiver_init
receiver_process_event-delivered_example =
    receiver_process_event-delivered quiet 100 request receiver_init (wrapped_256-IsValid accepted)
      (omega arith) request_valid

security_check_event_iff_example : (security_check_event attack ≡ false) ↔ IsDenied attack
security_check_event_iff_example = security_check_event_iff attack

response : Response
response = response_init 3 EventStatus.success

abbrev center : Center
center = record {
  stats = center_init;
  routing_table = routing_table_init;
  kernel_to_user = wrapped response;
}

attack_denied : security_check_event attack ≡ false
unfolding security_check_event strcmp
attack_denied = refl

accepted_allowed : security_check_event accepted ≡ true
unfolding security_check_event read_bytes
accepted_allowed = refl

center_process_event-allowed_example :
    let (routed, c') = center_process_event quiet 100 accepted center in
    (routed ≡ ltb (occupied_at routing_table_init (routing_table_index 9)) bucket_capacity)
    × Invariant.IsValid c'.routing_table
    × (get c'.routing_table 9 ≡ (
        if routed && (9 == 9) then some (routed_entry 100 accepted) else get routing_table_init 9))
    × (c'.kernel_to_user ≡ wrapped response)
center_process_event-allowed_example =
    center_process_event-allowed quiet 100 accepted center 9 init-IsValid (omega arith)
      (omega arith) none_at_first accepted_allowed
