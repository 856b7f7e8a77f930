-- ===== src/Deck/Network.antt =====
-- The network deck: src/kernel/eventdriven/decks/network_deck.c, a stub in this version.
use box_kernel.Base.{ℕ, Bool, true, false, ◌==◌, if◌then◌else◌}
use box_kernel.Events.{RoutingEntry, read_u64, deck_prefix_network}
use box_kernel.Events.EventType
use box_kernel.Deck.{deck_complete, deck_error}

unfoldable pub network_deck_process : ℕ → RoutingEntry → Bool × RoutingEntry
network_deck_process now entry =
    let event = entry.event_copy in
    if event.type == EventType.net_socket
    then (true, deck_complete now entry deck_prefix_network 100)
    else if event.type == EventType.net_connect
    then (true, deck_complete now entry deck_prefix_network 0)
    else if event.type == EventType.net_send
    then (true, deck_complete now entry deck_prefix_network (read_u64 4 event.payload))
    else if event.type == EventType.net_recv
    then (true, deck_complete now entry deck_prefix_network 0)
    else (false, deck_error now entry deck_prefix_network 1)
