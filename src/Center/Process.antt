-- ===== src/Center/Process.antt =====
-- What Center does with an event, on every branch. center.h, `center_process_event`.
use box_kernel.Base.{
  ℕ, ◌+◌, ◌<◌, ◌^◌, ◌≡◌, ◌≢◌, refl, sym, ◌∙◌, inl, inr, true, false, ◌&&◌, arith, List, [], ◌∷◌,
  ◌++◌, none, some, ◌==◌, ltb, if◌then◌else◌, Bool-cases, u64,
}
use box_kernel.Ring.{RingBuffer, ring_buffer_size}
use box_kernel.Ring.Inv
use box_kernel.Ring.Inv.{ring_buffer_size-IsRingSize}
use box_kernel.Ring.Refine.{contents}
use box_kernel.Ring.Wait.{push_wait, push_timeout, IsConsumer, push_wait_lem}
use box_kernel.Events.{Event, EventStatus, Response}
use box_kernel.Routing.{routing_table_insert, routing_table_index, bucket_capacity}
use box_kernel.Routing.Invariant
use box_kernel.Routing.Invariant.{get, occupied_at}
use box_kernel.Routing.Insert.{
  routing_table_insert-IsValid, routing_table_insert-refused, get-routing_table_insert,
}
use box_kernel.Center.{
  Center, security_check_event, denied_response, routed_entry, center_process_event,
}

-- Each event processed is routed, denied, or counted as a routing error.
pub record IsBalanced (c : Center) : Type 0 where
  pub processed_range : c.stats.events_processed < 2 ^ 64
  pub balance :
      u64 (c.stats.routes_created + c.stats.routing_errors + c.stats.security_denied)
      ≡ c.stats.events_processed

module _ (pause : ℕ → RingBuffer Response → RingBuffer Response) (now : ℕ) where
  -- Whatever the event and the state, the counters stay balanced.
  pub center_process_event-IsBalanced :
      (e : Event) {c : Center} → IsBalanced c → IsBalanced (center_process_event pause now e c).1
  unfolding center_process_event
  center_process_event-IsBalanced e {c} b = ground arith

  -- An event that the policy denies leaves the routing table alone, and its sender is sent a DENIED
  -- response with the event's id behind what is left in the ring, unless the ring stays full.
  center_process_event-denied :
      (e : Event) (c : Center)
      → IsConsumer ring_buffer_size pause
      → Inv.IsValid ring_buffer_size c.kernel_to_user
      → security_check_event e ≡ false
      → let (routed, c') = center_process_event pause now e c in
        let sent =
          (push_wait ring_buffer_size pause push_timeout c.kernel_to_user
            (denied_response now e)).0 in
        (routed ≡ false)
        × (c'.routing_table ≡ c.routing_table)
        × ((denied_response now e).status ≡ EventStatus.denied)
        × ((denied_response now e).event_id ≡ e.id)
        × Inv.IsValid ring_buffer_size c'.kernel_to_user
        × ((gone : List Response) × (contents ring_buffer_size c.kernel_to_user
                ++ (if sent then denied_response now e ∷ [] else [])
              ≡ gone ++ contents ring_buffer_size c'.kernel_to_user))
  unfolding center_process_event denied_response
  center_process_event-denied e c consumer v denied =
      let (valid, sent) =
        push_wait_lem ring_buffer_size-IsRingSize consumer push_timeout (denied_response now e) v in
      rw denied (refl, refl, refl, refl, valid, sent)

  -- An event that the policy allows, with a fresh id, is routed exactly when the bucket of its id
  -- has a free slot. The table stays valid, the id then maps to the event's entry, no other id is
  -- affected, and no response is sent: an event that finds its bucket full is dropped in silence.
  pub center_process_event-allowed :
      (e : Event) (c : Center) (j : ℕ)
      → Invariant.IsValid c.routing_table
      → e.id ≢ 0
      → j ≢ 0
      → get c.routing_table e.id ≡ none
      → security_check_event e ≡ true
      → let (routed, c') = center_process_event pause now e c in
        (routed ≡ ltb (occupied_at c.routing_table (routing_table_index e.id)) bucket_capacity)
        × Invariant.IsValid c'.routing_table
        × (get c'.routing_table j
            ≡ (if routed && (e.id == j) then some (routed_entry now e) else get c.routing_table j))
        × (c'.kernel_to_user ≡ c.kernel_to_user)
  unfolding center_process_event routed_entry
  center_process_event-allowed e c j v nz nj fresh allowed =
      let entry = routed_entry now e in
      let (ok, _, _) = routing_table_insert-refused v entry nz in
      let valid = routing_table_insert-IsValid v entry nz fresh in
      let found = get-routing_table_insert v entry j nz nj fresh in
      rw allowed (elim (Bool-cases (routing_table_insert c.routing_table entry).0) [
        | inl stored ↦ rw stored (sym stored ∙ ok, valid, rw stored at found, refl)
        | inr full ↦ rw full (sym full ∙ ok, valid, rw full at found, refl)
      ])
