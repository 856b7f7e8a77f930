-- ===== src/System/Travel.antt =====
-- The way of an event through the first two stages of a round. eventdriven_system.c.
use box_kernel.Base.{
  ℕ, ◌+◌, ◌<◌, ◌≡◌, ◌≢◌, refl, ◌∙◌, ap, true, none, some, List, [], ◌∷◌, ◌++◌, length, u64, arith,
  ltb, lt→ltb, ◌==◌,
}
use box_kernel.Ring.{ring_buffer_size, ring_pop}
use box_kernel.Ring.Inv
use box_kernel.Ring.Inv.{ring_buffer_size-IsRingSize}
use box_kernel.Ring.Refine.{contents}
use box_kernel.Ring.Batch.{ring_pop-cons}
use box_kernel.Ring.Wait.{IsConsumer}
use box_kernel.Events.{Event}
use box_kernel.Events.Rings.{EventRingBuffer, ResponseRingBuffer}
use box_kernel.Routing.{bucket_capacity, routing_table_index}
use box_kernel.Routing.Invariant
use box_kernel.Routing.Invariant.{get, occupied_at}
use box_kernel.Receiver.{receiver_validate_event, receiver_process_event, stamped}
use box_kernel.Receiver.Process.{receiver_process_event_lem, receiver_process_event-delivered}
use box_kernel.Center.{Center, security_check_event, routed_entry, center_process_event}
use box_kernel.Center.Process.{center_process_event-allowed}
use box_kernel.System.{EventDrivenSystem, receive, route}

module _ (pause_events : ℕ → EventRingBuffer → EventRingBuffer)
    (pause_responses : ℕ → ResponseRingBuffer → ResponseRingBuffer) (now : ℕ → ℕ)
    (consumer : IsConsumer ring_buffer_size pause_events) where
  receive-some :
      (s : EventDrivenSystem) {e : Event}
      → (ring_pop ring_buffer_size s.user_to_kernel_ring).0 ≡ some e
      → let (receiver, to_center) =
          receiver_process_event pause_events (now 0) e s.receiver s.receiver_to_center_ring in
        receive pause_events pause_responses now s ≡ record s {
          user_to_kernel_ring = (ring_pop ring_buffer_size s.user_to_kernel_ring).1;
          receiver = receiver;
          receiver_to_center_ring = to_center;
        }
  unfolding receive
  receive-some s out = rw (out, receive) refl

  -- what Center works on
  abbrev center_of : EventDrivenSystem → Center
  center_of s = record {
    stats = s.center;
    routing_table = s.guide.routing_table;
    kernel_to_user = s.kernel_to_user_ring;
  }

  route-some :
      (s : EventDrivenSystem) {e : Event}
      → (ring_pop ring_buffer_size s.receiver_to_center_ring).0 ≡ some e
      → (route pause_events pause_responses now s).guide.routing_table
        ≡ (center_process_event pause_responses (now 1) e (center_of s)).1.routing_table
  unfolding route
  route-some s out = rw (out, route) refl

  -- A valid event at the front of the ring from user space, with an empty and valid ring to Center,
  -- is in the routing table after the first two stages of the round, when the policy allows it, its
  -- new id is not 0 and not in the table, and the bucket of that id has a free slot. The table maps
  -- the id to the entry of the event with that id and the time. The ring from user space is valid,
  -- and the consumer of the ring to Center only takes from its front.
  pub route-receive :
      (s : EventDrivenSystem) {e : Event} {q : List Event}
      → Inv.IsValid ring_buffer_size s.user_to_kernel_ring
      → contents ring_buffer_size s.user_to_kernel_ring ≡ e ∷ q
      → Inv.IsValid ring_buffer_size s.receiver_to_center_ring
      → contents ring_buffer_size s.receiver_to_center_ring ≡ []
      → Invariant.IsValid s.guide.routing_table
      → receiver_validate_event e ≡ true
      → let id = u64 (s.receiver.global_event_id_counter + 1) in
        security_check_event (stamped id (now 0) e) ≡ true
        → id ≢ 0
        → get s.guide.routing_table id ≡ none
        → occupied_at s.guide.routing_table (routing_table_index id) < bucket_capacity
        → get
            (route pause_events pause_responses now
              (receive pause_events pause_responses now s)).guide.routing_table
            id
          ≡ some (routed_entry (now 1) (stamped id (now 0) e))
  route-receive s {e} {q} u queue c empty t valid allowed nz fresh room =
      let id = u64 (s.receiver.global_event_id_counter + 1) in
      let event = stamped id (now 0) e in
      let s' = receive pause_events pause_responses now s in
      let (out, _) = ring_pop-cons ring_buffer_size-IsRingSize u queue in
      let stage = receive-some s out in
      let sent =
        receiver_process_event pause_events (now 0) e s.receiver s.receiver_to_center_ring in
      let (_, _, ring_valid, _) =
        receiver_process_event_lem pause_events (now 0) consumer e s.receiver c in
      let (delivered, _, _, _) =
        receiver_process_event-delivered pause_events (now 0) e s.receiver c
          (omega (arith, ap length empty)) valid in
      let queued : contents ring_buffer_size sent.1 ≡ event ∷ [] =
        delivered ∙ ap (λ es. es ++ event ∷ []) empty in
      let (out', _) = ring_pop-cons ring_buffer_size-IsRingSize ring_valid queued in
      let ring' : s'.receiver_to_center_ring ≡ sent.1 =
        ap (λ (x : EventDrivenSystem). x.receiver_to_center_ring) stage in
      let table' : s'.guide.routing_table ≡ s.guide.routing_table =
        ap (λ (x : EventDrivenSystem). x.guide.routing_table) stage in
      let popped : (ring_pop ring_buffer_size s'.receiver_to_center_ring).0 ≡ some event =
        ap (λ r. (ring_pop ring_buffer_size r).0) ring' ∙ out' in
      let (routed, _, found, _) =
        center_process_event-allowed pause_responses (now 1) event (center_of s') id (rw table' t)
          nz nz (ap (λ t. get t id) table' ∙ fresh) allowed in
      let same : (id == id) ≡ true = ground arith in
      let stored : (center_process_event pause_responses (now 1) event (center_of s')).0 ≡ true =
        routed
        ∙ ap (λ t. ltb (occupied_at t (routing_table_index id)) bucket_capacity) table'
        ∙ lt→ltb _ _ room in
      ap (λ t. get t id) (route-some s' popped) ∙ (rw (stored, same) at found)
