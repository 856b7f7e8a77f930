-- ===== src/Execution.antt =====
-- The execution deck: src/kernel/eventdriven/execution/execution_deck.c. It takes a finished entry
-- from Guide's execution queue, sends its response and frees its slot in the routing table. The
-- wait for room in the response ring has no bound in the source. Here it has: `fuel` tries, and
-- `none` when they have all failed. `now` is `rdtsc()`; `pause` is what user space does to the ring
-- during a `cpu_pause()`.
pub mod Respond
use box_kernel.Base.{
  ℕ, zero, suc, ◌+◌, ◌/◌, ◌%◌, ◌^◌, Bool, true, false, Option, none, some, List, [], ◌∷◌, ◌++◌,
  drop, ◌==◌, if◌then◌else◌, u64,
}
use box_kernel.Ring.{RingBuffer, ring_buffer_size, deck_queue_size, ring_push, ring_pop}
use box_kernel.Events.{EventStatus, Response, RoutingEntry, response_init}
use box_kernel.Routing.{RoutingTable, deref, routing_table_remove}
use box_kernel.Events.Rings.{ResponseRingBuffer, response_ring_push}
use box_kernel.Guide.{deck_queue_pop, Guide}

pub record ExecutionStats : Type 0 where
  pub events_executed : ℕ
  pub responses_sent : ℕ
  pub errors : ℕ

-- what the deck works on: Guide's queue and table, the response ring, its counters
pub record Execution : Type 0 where
  pub guide : Guide
  pub response_ring : ResponseRingBuffer
  pub stats : ExecutionStats

-- The loop from the last result down: the last one that is not NULL.
unfoldable pub last_result : List ℕ → Option ℕ
last_result [] = none
last_result (r ∷ rs) = elim (last_result rs) [
  | some later ↦ some later
  | none ↦ if r == 0 then none else some r
]

-- the bytes of a number, the lowest first
unfoldable pub write_bytes : ℕ → ℕ → List ℕ
write_bytes zero value = []
write_bytes (suc n) value = value % 2 ^ 8 ∷ write_bytes n (value / 2 ^ 8)

-- The result is the pointer itself: its eight bytes.
unfoldable pub collect_results : ℕ → RoutingEntry → Response
collect_results now entry =
    let response = record (response_init entry.event_id EventStatus.success) { timestamp = now } in
    elim (last_result entry.deck_results) [
      | none ↦ record response { result_size = 0 }
      | some deck_result ↦ record response {
        result = write_bytes 8 deck_result ++ drop 8 response.result;
        result_size = 8;
      }
    ]

module _ (pause : ℕ → ResponseRingBuffer → ResponseRingBuffer) where
  -- `while (!response_ring_push(…)) cpu_pause();`
  unfoldable pub send_response : ℕ → ResponseRingBuffer → Response → Option (ResponseRingBuffer)
  send_response zero ring response = none
  send_response (suc fuel) ring response =
      let (ok, ring') = response_ring_push ring response in
      let rest = send_response fuel (pause fuel ring') response in if ok then some ring' else rest

  unfoldable pub process_completed_event : ℕ → ℕ → RoutingEntry → Execution → Option Execution
  process_completed_event fuel now entry x =
      elim (send_response fuel x.response_ring (collect_results now entry)) [
        | none ↦ none
        | some ring ↦ some (record {
          guide = record x.guide {
            routing_table = (routing_table_remove x.guide.routing_table entry.event_id).1;
          };
          response_ring = ring;
          stats = record x.stats {
            responses_sent = u64 (x.stats.responses_sent + 1);
            events_executed = u64 (x.stats.events_executed + 1);
          };
        })
      ]

  -- whether there was an entry, and the new state
  unfoldable pub execution_deck_run_once : ℕ → ℕ → Execution → Option (Bool × Execution)
  execution_deck_run_once fuel now x =
      let (popped, queue) = deck_queue_pop x.guide.queues.execution_queue in
      let taken = record x {
        guide = record x.guide { queues = record x.guide.queues { execution_queue = queue } };
      } in
      elim popped [
        | none ↦ some (false, taken)
        | some ref ↦
            elim (process_completed_event fuel now (deref x.guide.routing_table ref) taken) [
              | none ↦ none
              | some x' ↦ some (true, x')
            ]
      ]
