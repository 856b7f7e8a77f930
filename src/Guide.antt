-- ===== src/Guide.antt =====
-- Guide: src/kernel/eventdriven/guide/guide.h and guide.c. It scans the routing table in rounds of
-- 16 buckets, sends each entry in work to the queue of its next deck, and one whose route is done,
-- or aborted, to the execution queue. A queue holds pointers into the table.
pub mod Visit
pub mod Scan
pub mod Pass
use box_kernel.Base.{
  ℕ, zero, suc, ◌+◌, ◌%◌, Bool, true, false, not, ◌&&◌, Option, none, some, List, [], ◌∷◌, leb,
  ◌==◌, if◌then◌else◌, u64, update, replicate,
}
use box_kernel.Ring.{RingBuffer, deck_queue_size, ring_init, ring_is_empty, ring_push, ring_pop}
use box_kernel.Events.{
  EventStatus, RoutingEntry, routing_entry_get_next_prefix, max_routing_steps, deck_prefix_none,
}
use box_kernel.Routing.{RoutingTable, RoutingBucket, EntryRef, routing_table_size}

abbrev pub DeckQueue : Type 0
DeckQueue = RingBuffer EntryRef

abbrev pub deck_queue_init : DeckQueue → DeckQueue
deck_queue_init queue = ring_init queue

abbrev pub deck_queue_push : DeckQueue → EntryRef → Bool × DeckQueue
deck_queue_push queue entry = ring_push deck_queue_size queue entry

abbrev pub deck_queue_pop : DeckQueue → Option EntryRef × DeckQueue
deck_queue_pop queue = ring_pop deck_queue_size queue

abbrev pub deck_queue_is_empty : DeckQueue → Bool
deck_queue_is_empty queue = ring_is_empty queue

pub record GuideStats : Type 0 where
  pub events_routed : ℕ
  pub events_completed : ℕ
  pub routing_iterations : ℕ

-- the queues that Guide fills, and its counters; `deck_queues` has the indices 0 to 4, 0 unused
pub record Queues : Type 0 where
  pub deck_queues : ℕ → DeckQueue
  pub execution_queue : DeckQueue
  pub stats : GuideStats

-- `GuideContext` and `guide_stats`
pub record Guide : Type 0 where
  pub routing_table : RoutingTable
  pub queues : Queues
  pub scan_position : ℕ

-- The queues' slots are left as they are.
unfoldable pub guide_init : RoutingTable → Queues → Guide
guide_init table old = record {
  routing_table = table;
  queues = record {
    deck_queues = λ i. if leb i 4 then deck_queue_init (old.deck_queues i) else old.deck_queues i;
    execution_queue = deck_queue_init old.execution_queue;
    stats = record { events_routed = 0; events_completed = 0; routing_iterations = 0 };
  };
  scan_position = 0;
}

unfoldable pub guide_get_deck_queue : Guide → ℕ → Option DeckQueue
guide_get_deck_queue g deck_prefix =
    if leb 1 deck_prefix && leb deck_prefix 4 then some (g.queues.deck_queues deck_prefix) else none

unfoldable pub guide_get_execution_queue : Guide → DeckQueue
guide_get_execution_queue g = g.queues.execution_queue

abbrev pub is_processing : EventStatus → Bool
is_processing EventStatus.processing = true
is_processing _ = false

-- An entry that is done or aborted goes to the execution queue, and gets its final state once it is
-- in there.
unfoldable pub finish : EventStatus → EntryRef → RoutingEntry → Queues → RoutingEntry × Queues
finish final ref entry q =
    let (ok, queue) = deck_queue_push q.execution_queue ref in
    if ok
    then (
      record entry { state = final },
      record q {
        execution_queue = queue;
        stats = record q.stats { events_completed = u64 (q.stats.events_completed + 1) };
      },
    )
    else (entry, record q { execution_queue = queue })

-- to the queue of the deck `prefix`; the entry stays as it is
unfoldable pub dispatch : ℕ → EntryRef → RoutingEntry → Queues → RoutingEntry × Queues
dispatch prefix ref entry q =
    let (ok, queue) = deck_queue_push (q.deck_queues prefix) ref in
    let pushed = record q { deck_queues = update q.deck_queues prefix queue } in
    if ok
    then (
      entry,
      record pushed { stats = record q.stats { events_routed = u64 (q.stats.events_routed + 1) } },
    )
    else (entry, pushed)

-- the body of the loop over a bucket's slots
unfoldable pub visit_entry : EntryRef → RoutingEntry → Queues → RoutingEntry × Queues
visit_entry ref entry q =
    let next_prefix = routing_entry_get_next_prefix entry in
    if entry.event_id == 0
    then (entry, q)
    else if not (is_processing entry.state)
    then (entry, q)
    else if next_prefix == deck_prefix_none
    then finish EventStatus.success ref entry q
    else if not (entry.abort_flag == 0)
    then finish EventStatus.error ref
        (record entry { prefixes = replicate max_routing_steps deck_prefix_none }) q
    else if leb 1 next_prefix && leb next_prefix 4
    then dispatch next_prefix ref entry q
    else (entry, q)

-- the loop, from `slot` on
unfoldable pub visit_slots : ℕ → ℕ → List RoutingEntry → Queues → List RoutingEntry × Queues
visit_slots bucket slot [] q = ([], q)
visit_slots bucket slot (entry ∷ entries) q =
    let (entry', q') = visit_entry (record { bucket = bucket; slot = slot }) entry q in
    let rest = visit_slots bucket (slot + 1) entries q' in (entry' ∷ rest.0, rest.1)

-- one bucket, at the scan position
unfoldable pub scan_bucket : Guide → Guide
scan_bucket g =
    let index = g.scan_position % routing_table_size in
    let bucket = g.routing_table.buckets index in
    let (entries, q) = visit_slots index 0 bucket.entries g.queues in
    record {
      routing_table = record g.routing_table {
        buckets = update g.routing_table.buckets index (record bucket { entries = entries });
      };
      queues = q;
      scan_position = u64 (g.scan_position + 1);
    }

unfoldable pub scan_buckets : ℕ → Guide → Guide
scan_buckets zero g = g
scan_buckets (suc n) g = scan_buckets n (scan_bucket g)

unfoldable pub guide_scan_and_route : Guide → Guide
guide_scan_and_route g = scan_buckets 16 g

unfoldable pub guide_scan_and_dispatch : Guide → Guide
guide_scan_and_dispatch g =
    let g' = guide_scan_and_route g in
    let stats = g'.queues.stats in
    record g' {
      queues = record g'.queues {
        stats = record stats { routing_iterations = u64 (stats.routing_iterations + 1) };
      };
    }
