-- ===== src/Tests/Entry.antt =====
-- Runs of Guide, the decks and the execution deck on one entry.
use box_kernel.Base.{◌≡◌, ◌≢◌, refl, true, [], ◌∷◌, none, some, arith, length, replicate}
use box_kernel.Ring.{ring_buffer_size, ring_count}
use box_kernel.Ring.Refine.{contents}
use box_kernel.Events.{
  EventStatus, RoutingEntry, Response, deck_prefix_none, routing_entry_get_next_prefix,
  first_prefix, response_init, routing_entry_init,
}
use box_kernel.Events.Route.{pending_steps}
use box_kernel.Routing.Invariant
use box_kernel.Routing.Invariant.{get}
use box_kernel.Center.{routed_entry, center_determine_route, first_deck}
use box_kernel.Guide.{visit_entry}
use box_kernel.Guide.Visit.{InWork, queued, room, visit_entry-dispatched}
use box_kernel.Execution.{Execution, collect_results, process_completed_event}
use box_kernel.Execution.Respond.{process_completed_event_lem}
use box_kernel.Tests.Data.{
  wrapped, wrapped_256-IsValid, quiet, entry, slot, table-IsValid, queues, queues-IsValid, guide,
}

entry-InWork : InWork entry
unfolding routed_entry
entry-InWork = record { has_id = omega arith; in_state = refl }

-- the entry after its deck, and after a failure with steps left
abbrev finished : RoutingEntry
finished = record entry { prefixes = replicate 8 0 }

abbrev aborted : RoutingEntry
aborted = record entry { abort_flag = 1 }

next_prefix : routing_entry_get_next_prefix entry ≡ 2
unfolding routing_entry_get_next_prefix routed_entry center_determine_route first_deck first_prefix
next_prefix = refl

finished-InWork : InWork finished
unfolding routed_entry
finished-InWork = record { has_id = omega arith; in_state = refl }

nothing_left : routing_entry_get_next_prefix finished ≡ deck_prefix_none
unfolding routing_entry_get_next_prefix first_prefix
nothing_left = refl

aborted-InWork : InWork aborted
unfolding routed_entry
aborted-InWork = record { has_id = omega arith; in_state = refl }

aborted_prefix : routing_entry_get_next_prefix aborted ≢ deck_prefix_none
unfolding routing_entry_get_next_prefix routed_entry center_determine_route first_deck first_prefix
aborted_prefix = omega arith

going : entry.abort_flag ≡ 0
unfolding routed_entry
going = refl

visit_entry-dispatched_example :
    let (e', q') = visit_entry slot entry queues in
    (e' ≡ entry)
    × (queued (q'.deck_queues 2) ≡ slot ∷ slot ∷ slot ∷ [])
    × (q'.execution_queue ≡ wrapped slot)
unfolding ring_count routing_entry_get_next_prefix routed_entry center_determine_route first_deck
    first_prefix
visit_entry-dispatched_example =
    visit_entry-dispatched slot entry queues-IsValid entry-InWork 2 (omega (arith, next_prefix))
      (omega (arith, next_prefix)) going

results : length entry.deck_results ≡ 8
unfolding routed_entry routing_entry_init
results = refl

one_step : pending_steps entry.prefixes ≡ 1
unfolding routed_entry center_determine_route first_deck
one_step = refl

queue_room : room queues.execution_queue ≡ true
unfolding ring_count
queue_room = refl

response : Response
response = response_init 3 EventStatus.success

abbrev execution : Execution
execution = record {
  guide = guide;
  response_ring = wrapped response;
  stats = record { events_executed = 0; responses_sent = 0; errors = 0 };
}

process_completed_event_lem_example :
    (x' : Execution) × (process_completed_event quiet 1 300 entry execution ≡ some x')
    × (contents ring_buffer_size x'.response_ring
        ≡ response ∷ response ∷ collect_results 300 entry ∷ [])
    × Invariant.IsValid x'.guide.routing_table
    × (get x'.guide.routing_table 9 ≡ none)
unfolding ring_count routed_entry
process_completed_event_lem_example =
    process_completed_event_lem quiet 0 300 9 entry execution (wrapped_256-IsValid response)
      (omega arith) table-IsValid (omega arith) (omega arith)
