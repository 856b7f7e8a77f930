-- ===== src/Deck/Outcome.antt =====
-- What becomes of an entry after a deck has completed it, or failed on it. deck_interface.h
-- together with guide.h.
use box_kernel.Base.{
  ℕ, ◌+◌, ◌-◌, ◌≤◌, ◌≡◌, ◌≢◌, refl, ap, true, arith, length, get_or, get_or-set_self,
}
use box_kernel.Events.{
  EventStatus, RoutingEntry, routing_entry_get_next_prefix, routing_entry_clear_prefix,
  deck_prefix_none,
}
use box_kernel.Events.Route.{pending_steps, clear_next_prefix, is_complete_iff}
use box_kernel.Routing.{EntryRef}
use box_kernel.Guide.{Queues, visit_entry}
use box_kernel.Guide.Visit
use box_kernel.Guide.Visit.{InWork, room, visit_entry-done}
use box_kernel.Deck.{deck_complete, deck_error}

module _ (now : ℕ) (e : RoutingEntry) where
  -- A deck that completes the next step of a route takes that step off it, keeps its result at the
  -- deck's place, and leaves the entry's id, state and abort flag alone.
  pub deck_complete_lem :
      (result : ℕ)
      → routing_entry_get_next_prefix e ≢ deck_prefix_none
      → routing_entry_get_next_prefix e ≤ length e.deck_results
      → let p = routing_entry_get_next_prefix e in
        let e' = deck_complete now e p result in
        (pending_steps e.prefixes ≡ pending_steps e'.prefixes + 1)
        × (get_or e'.deck_results (p - 1) 0 ≡ result)
        × (e'.event_id ≡ e.event_id)
        × (e'.state ≡ e.state)
        × (e'.abort_flag ≡ e.abort_flag)
  unfolding deck_complete routing_entry_clear_prefix
  deck_complete_lem result more fits = (
    clear_next_prefix e more,
    get_or-set_self e.deck_results (routing_entry_get_next_prefix e - 1) result 0 (omega arith),
    refl,
    refl,
    refl,
  )

  -- When a deck fails on the last step of a route, Guide next marks the entry SUCCESS and not
  -- ERROR: the failing deck has cleared its prefix, and Guide tests for a finished route before it
  -- tests the abort flag. The entry has the abort flag and the error code set all the same.
  pub deck_error-success :
      (ref : EntryRef) (code : ℕ) {q : Queues}
      → Visit.IsValid q
      → InWork e
      → pending_steps e.prefixes ≡ 1
      → room q.execution_queue ≡ true
      → let e' = (visit_entry ref (deck_error now e (routing_entry_get_next_prefix e) code) q).0 in
        (e'.state ≡ EventStatus.success) × (e'.abort_flag ≡ 1) × (e'.error_code ≡ code)
  unfolding deck_error routing_entry_clear_prefix
  deck_error-success ref code {q} v w one free =
      let failed = deck_error now e (routing_entry_get_next_prefix e) code in
      let more : routing_entry_get_next_prefix e ≢ deck_prefix_none =
        ground (arith, is_complete_iff e) in
      let none_left : pending_steps failed.prefixes ≡ 0 = omega (arith, clear_next_prefix e more) in
      let done : routing_entry_get_next_prefix failed ≡ deck_prefix_none =
        ground (arith, is_complete_iff failed) in
      let in_work : InWork failed = record { has_id = w.has_id; in_state = w.in_state } in
      let (outcome, _, _) = visit_entry-done ref failed v in_work 0 done in
      let final : (visit_entry ref failed q).0 ≡ record failed { state = EventStatus.success } =
        rw free at outcome in
      (
        ap (λ (f : RoutingEntry). f.state) final,
        ap (λ (f : RoutingEntry). f.abort_flag) final,
        ap (λ (f : RoutingEntry). f.error_code) final,
      )
