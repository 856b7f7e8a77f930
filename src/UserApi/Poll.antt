-- ===== src/UserApi/Poll.antt =====
-- What `eventapi_poll_response` of eventapi.c returns.
use mathlib.Core.Path.{subst}
use box_kernel.Base.{
  ℕ, zero, suc, ◌%◌, ◌≤◌, ◌≡◌, refl, sym, inl, inr, ◌&&◌, Bool-cases, List, [], ◌∷◌, Option, none,
  some, ◌==◌, ==_iff, if◌then◌else◌, if-each, length, arith,
}
use box_kernel.Ring.{ring_buffer_size, ring_count, ring_pop}
use box_kernel.Ring.Inv
use box_kernel.Ring.Inv.{ring_buffer_size-IsRingSize, ring_pop-IsValid}
use box_kernel.Ring.Refine.{contents, length-contents}
use box_kernel.Ring.Batch.{ring_pop-nil, ring_pop-cons}
use box_kernel.Events.{Response}
use box_kernel.Events.Rings.{ResponseRingBuffer}
use box_kernel.UserApi.{
  UserApi, cached, poll_loop, poll_ring, response_cache_size, eventapi_poll_response,
}

-- a response of the id asked for, or none and an empty ring
abbrev pub Answer : ℕ → Option Response × UserApi → Type 0
Answer event_id (none, u) =
    (ring : ResponseRingBuffer) × (u.from_kernel_ring ≡ some ring)
    × (contents ring_buffer_size ring ≡ [])
Answer event_id (some r, u) = r.event_id ≡ event_id

module _ (n event_id : ℕ) (ring : ResponseRingBuffer) (u : UserApi) where
  poll_loop-none :
      (ring_pop ring_buffer_size ring).0 ≡ none
      → poll_loop (suc n) event_id ring u
        ≡ (none, record u { from_kernel_ring = some (ring_pop ring_buffer_size ring).1 })
  unfolding poll_loop
  poll_loop-none out = rw (out, poll_loop) refl

  poll_loop-some :
      {x : Response}
      → (ring_pop ring_buffer_size ring).0 ≡ some x
      → poll_loop (suc n) event_id ring u ≡ (
          if x.event_id == event_id
          then (
            some x,
            record (cached x u) { from_kernel_ring = some (ring_pop ring_buffer_size ring).1 },
          )
          else poll_loop n event_id (ring_pop ring_buffer_size ring).1 (cached x u))
  unfolding poll_loop
  poll_loop-some out = rw (out, poll_loop) refl

poll_loop_lem :
    (n event_id : ℕ) (q : List Response) {ring : ResponseRingBuffer} (u : UserApi)
    → Inv.IsValid ring_buffer_size ring
    → contents ring_buffer_size ring ≡ q
    → length q ≤ n
    → Answer event_id (poll_loop n event_id ring u)
unfolding poll_loop
poll_loop_lem zero event_id [] {ring} u v e h = (ring, refl, e)
poll_loop_lem zero event_id (x ∷ q) u v e h = absurd (omega arith)
poll_loop_lem (suc n) event_id [] {ring} u v e h =
    let (out, left) = ring_pop-nil ring_buffer_size-IsRingSize v e in
    let ring' = (ring_pop ring_buffer_size ring).1 in
    subst (Answer event_id) (sym (poll_loop-none n event_id ring u out)) (ring', refl, left)
poll_loop_lem (suc n) event_id (x ∷ q) {ring} u v e h =
    let (out, left) = ring_pop-cons ring_buffer_size-IsRingSize v e in
    let rest =
      poll_loop_lem n event_id q (cached x u) (ring_pop-IsValid ring_buffer_size-IsRingSize v) left
        (omega arith) in
    subst (Answer event_id) (sym (poll_loop-some n event_id ring u out)) (
      if-each (Answer event_id) (x.event_id == event_id)
        (λ found. (==_iff x.event_id event_id).0 found) (λ other. rest))

poll_ring_lem :
    (event_id : ℕ) (u : UserApi) (ring : ResponseRingBuffer)
    → Inv.IsValid ring_buffer_size ring
    → Answer event_id (poll_ring event_id u (some ring))
unfolding poll_ring
poll_ring_lem event_id u ring v =
    let entry = u.response_cache (event_id % response_cache_size) in
    let hit =
      u.response_cache_valid (event_id % response_cache_size) && (entry.event_id == event_id) in
    elim (Bool-cases hit) [
      | inl h ↦ rw (h, Answer) (ground (arith, h))
      | inr h ↦ rw h (
          poll_loop_lem (ring_count ring) event_id (contents ring_buffer_size ring) u v refl
            (omega (arith, length-contents ring_buffer_size-IsRingSize ring)))
    ]

-- With a valid ring from the kernel, a poll returns a response of the id that was asked for, or
-- none, and then the ring from the kernel has been emptied.
pub eventapi_poll_response_lem :
    (event_id : ℕ) (u : UserApi) (ring : ResponseRingBuffer)
    → u.from_kernel_ring ≡ some ring
    → Inv.IsValid ring_buffer_size ring
    → Answer event_id (eventapi_poll_response event_id u)
unfolding eventapi_poll_response
eventapi_poll_response_lem event_id u ring e v =
    subst (λ o. Answer event_id (poll_ring event_id u o)) (sym e) (poll_ring_lem event_id u ring v)
