-- ===== src/Deck.antt =====
-- What the processing decks share: src/kernel/eventdriven/decks/deck_interface.h and
-- deck_interface.c, and the network deck, network_deck.c. The function that a deck processes an
-- entry with is a parameter of `deck_run_once`; the state that such a function works on beside the
-- entry is its type `W`.
pub mod Network
pub mod Outcome
use box_kernel.Base.{
  ℕ, ◌+◌, ◌-◌, ◌^◌, Bool, true, false, Option, none, some, bit_or, u64, u32, set, update, ◌==◌,
  if◌then◌else◌,
}
use box_kernel.Ring.{deck_queue_size, ring_pop}
use box_kernel.Events.{RoutingEntry, routing_entry_clear_prefix}
use box_kernel.Routing.{EntryRef, deref, store}
use box_kernel.Guide.{deck_queue_pop, Guide, DeckQueue}

-- `result` is the address that a deck returns, 0 for NULL; `now` is `rdtsc()`
unfoldable pub deck_complete : ℕ → RoutingEntry → ℕ → ℕ → RoutingEntry
deck_complete now entry deck_prefix result =
    let entry' = record entry {
      deck_results = set entry.deck_results (deck_prefix - 1) result;
      deck_timestamps = set entry.deck_timestamps (deck_prefix - 1) now;
    } in
    let cleared = routing_entry_clear_prefix entry' deck_prefix in
    record cleared {
      completion_flags = bit_or cleared.completion_flags (u32 (2 ^ (deck_prefix - 1)));
    }

unfoldable pub deck_error : ℕ → RoutingEntry → ℕ → ℕ → RoutingEntry
deck_error now entry deck_prefix error_code =
    routing_entry_clear_prefix
      (record entry {
        abort_flag = 1;
        error_code = error_code;
        deck_timestamps = set entry.deck_timestamps (deck_prefix - 1) now;
      })
      deck_prefix

pub record DeckContext : Type 0 where
  pub deck_prefix : ℕ
  pub events_processed : ℕ
  pub errors : ℕ

unfoldable pub deck_init : ℕ → DeckContext
deck_init prefix = record { deck_prefix = prefix; events_processed = 0; errors = 0 }

module _ {ℓ} {W : Type ℓ} (process : W → RoutingEntry → Bool × RoutingEntry × W) where
  -- One entry of the deck's queue: it is processed where it stands in the table.
  unfoldable pub deck_run_once : DeckContext → Guide → W → Bool × DeckContext × Guide × W
  deck_run_once ctx g w =
      let (popped, queue) = deck_queue_pop (g.queues.deck_queues ctx.deck_prefix) in
      let taken = record g {
        queues = record g.queues {
          deck_queues = update g.queues.deck_queues ctx.deck_prefix queue;
        };
      } in
      elim popped [
        | none ↦ (false, ctx, taken, w)
        | some ref ↦
            let (success, entry, w') = process w (deref g.routing_table ref) in
            (
              true,
              if success
                  then record ctx { events_processed = u64 (ctx.events_processed + 1) }
                  else record ctx { errors = u64 (ctx.errors + 1) },
              record taken { routing_table = store g.routing_table ref entry },
              w',
            )
      ]
