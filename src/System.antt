-- ===== src/System.antt =====
-- The whole pipeline: src/kernel/eventdriven/eventdriven_system.h and eventdriven_system.c, the
-- synchronous processing of one round. What the operations, storage and hardware decks do with an
-- entry are parameters; `W` is the state that they work on, which the start leaves alone. `now` is
-- the time that each stage reads, from the Receiver (0) to the execution deck (6). In the waits,
-- `pause_events` and `pause_responses` are what others do to the rings.
pub mod Travel
use box_kernel.Base.{ℕ, zero, suc, Bool, true, false, Option, none, some, if◌then◌else◌}
use box_kernel.Ring.{RingBuffer, ring_buffer_size, ring_init, ring_pop}
use box_kernel.Events.{Event, Response, RoutingEntry}
use box_kernel.Events.Rings.{EventRingBuffer, ResponseRingBuffer, response_ring_init}
use box_kernel.Routing.{routing_table_init}
use box_kernel.Receiver.{Receiver, receiver_init, receiver_process_event}
use box_kernel.Center.{CenterStats, center_init, center_process_event}
use box_kernel.Guide.{Guide, guide_init, guide_scan_and_dispatch}
use box_kernel.Deck.{DeckContext, deck_init, deck_run_once}
use box_kernel.Deck.Network.{network_deck_process}
use box_kernel.Execution.{ExecutionStats, execution_deck_run_once}

-- the contexts of the four decks
pub record Decks : Type 0 where
  pub operations : DeckContext
  pub storage : DeckContext
  pub hardware : DeckContext
  pub network : DeckContext

-- `EventDrivenSystem` with the components that it points to
pub record EventDrivenSystem : Type 0 where
  pub user_to_kernel_ring : EventRingBuffer
  pub receiver_to_center_ring : EventRingBuffer
  pub kernel_to_user_ring : ResponseRingBuffer
  pub receiver : Receiver
  pub center : CenterStats
  pub guide : Guide
  pub decks : Decks
  pub execution : ExecutionStats
  pub initialized : Bool
  pub running : Bool

unfoldable pub eventdriven_system_init : EventDrivenSystem → EventDrivenSystem
eventdriven_system_init s = record {
  user_to_kernel_ring = ring_init s.user_to_kernel_ring;
  receiver_to_center_ring = ring_init s.receiver_to_center_ring;
  kernel_to_user_ring = response_ring_init s.kernel_to_user_ring;
  receiver = receiver_init;
  center = center_init;
  guide = guide_init routing_table_init s.guide.queues;
  decks = record {
    operations = deck_init 1;
    storage = deck_init 2;
    hardware = deck_init 3;
    network = deck_init 4;
  };
  execution = record { events_executed = 0; responses_sent = 0; errors = 0 };
  initialized = true;
  running = false;
}

unfoldable pub eventdriven_system_start : EventDrivenSystem → EventDrivenSystem
eventdriven_system_start s = if s.initialized then record s { running = true } else s

unfoldable pub eventdriven_system_stop : EventDrivenSystem → EventDrivenSystem
eventdriven_system_stop s = record s { running = false }

module _ (pause_events : ℕ → EventRingBuffer → EventRingBuffer)
    (pause_responses : ℕ → ResponseRingBuffer → ResponseRingBuffer) (now : ℕ → ℕ) where
  -- 1. the Receiver takes one event of user space
  unfoldable pub receive : EventDrivenSystem → EventDrivenSystem
  receive s =
      let (out, ring) = ring_pop ring_buffer_size s.user_to_kernel_ring in
      let taken = record s { user_to_kernel_ring = ring } in
      elim out [
        | none ↦ taken
        | some event ↦
            let (receiver, to_center) =
              receiver_process_event pause_events (now 0) event s.receiver
                s.receiver_to_center_ring in
            record taken { receiver = receiver; receiver_to_center_ring = to_center }
      ]

  -- 2. Center takes one event of the Receiver
  unfoldable pub route : EventDrivenSystem → EventDrivenSystem
  route s =
      let (out, ring) = ring_pop ring_buffer_size s.receiver_to_center_ring in
      let taken = record s { receiver_to_center_ring = ring } in
      elim out [
        | none ↦ taken
        | some event ↦
            let (_, c) = center_process_event pause_responses (now 1) event (record {
              stats = s.center;
              routing_table = s.guide.routing_table;
              kernel_to_user = s.kernel_to_user_ring;
            }) in
            record taken {
              center = c.stats;
              guide = record s.guide { routing_table = c.routing_table };
              kernel_to_user_ring = c.kernel_to_user;
            }
      ]

  module _ {ℓ} {W : Type ℓ}
      (operations storage hardware : ℕ → W → RoutingEntry → Bool × RoutingEntry × W) where
    network : ℕ → W → RoutingEntry → Bool × RoutingEntry × W
    network t w entry = let (ok, entry') = network_deck_process t entry in (ok, entry', w)

    -- 4. each deck takes one entry of its queue
    unfoldable pub run_decks : EventDrivenSystem → W → EventDrivenSystem × W
    unfolding network
    run_decks s w =
        let (_, operations', g1, w1) =
          deck_run_once (operations (now 2)) s.decks.operations s.guide w in
        let (_, storage', g2, w2) = deck_run_once (storage (now 3)) s.decks.storage g1 w1 in
        let (_, hardware', g3, w3) = deck_run_once (hardware (now 4)) s.decks.hardware g2 w2 in
        let (_, network', g4, w4) = deck_run_once (network (now 5)) s.decks.network g3 w3 in
        (
          record s {
            guide = g4;
            decks = record {
              operations = operations';
              storage = storage';
              hardware = hardware';
              network = network';
            };
          },
          w4,
        )

    -- `none` when the execution deck's wait has run out of fuel
    unfoldable pub eventdriven_process_one_iteration :
        ℕ → EventDrivenSystem → W → Option (EventDrivenSystem × W)
    eventdriven_process_one_iteration fuel s w =
        let routed = route (receive s) in
        let (s', w') =
          run_decks (record routed { guide = guide_scan_and_dispatch routed.guide }) w in
        elim (execution_deck_run_once pause_responses fuel (now 6) (record {
          guide = s'.guide;
          response_ring = s'.kernel_to_user_ring;
          stats = s'.execution;
        })) [
          | none ↦ none
          | some (_, x) ↦ some (
            record s' {
              guide = x.guide;
              kernel_to_user_ring = x.response_ring;
              execution = x.stats;
            },
            w',
          )
        ]

    unfoldable pub eventdriven_process_events :
        ℕ → ℕ → EventDrivenSystem → W → Option (EventDrivenSystem × W)
    eventdriven_process_events fuel zero s w = some (s, w)
    eventdriven_process_events fuel (suc iterations) s w =
        elim (eventdriven_process_one_iteration fuel s w) [
          | none ↦ none
          | some (s', w') ↦ eventdriven_process_events fuel iterations s' w'
        ]
