-- ===== src/Execution/Respond.antt =====
-- What the execution deck sends, and what it leaves. execution_deck.c.
use native.Mathlib.Nat.{pow-suc}
use box_kernel.Base.{
  ℕ, zero, suc, ◌+◌, ◌/◌, ◌%◌, ◌≤◌, ◌<◌, ◌^◌, ◌≡◌, ◌≢◌, refl, ◌∙◌, arith, List, [], ◌∷◌, ◌++◌,
  Option, none, some, length, ◌==◌, if◌then◌else◌, inl, inr, ◌⊎◌, u64,
}
use box_kernel.Ring.{RingBuffer, ring_buffer_size, ring_push}
use box_kernel.Ring.Inv
use box_kernel.Ring.Inv.{ring_buffer_size-IsRingSize, ring_push-IsValid}
use box_kernel.Ring.Refine.{contents}
use box_kernel.Ring.Batch.{ring_push-append, ring_push-full}
use box_kernel.Events.{EventStatus, Response, RoutingEntry, response_init, read_bytes, read_u64}
use box_kernel.Routing.{routing_table_remove}
use box_kernel.Routing.Invariant
use box_kernel.Routing.Invariant.{get}
use box_kernel.Routing.Remove.{routing_table_remove-IsValid, get-routing_table_remove}
use box_kernel.Execution.{
  Execution, last_result, write_bytes, collect_results, send_response, process_completed_event,
}

abbrev All {ℓ} : (ℕ → Type ℓ) → List ℕ → Type ℓ
All P [] = Unit
All P (r ∷ rs) = P r × All P rs

last_result_small :
    (rs : List ℕ) (p : ℕ) → All (λ r. r < 2 ^ 64) rs → last_result rs ≡ some p → p < 2 ^ 64
unfolding last_result
last_result_small [] p a h = absurd (ground arith)
last_result_small (r ∷ rs) p a h = later (last_result rs) refl (last_result_small rs p a.1)
  where
    later :
        (o : Option ℕ) → last_result rs ≡ o → (last_result rs ≡ some p → p < 2 ^ 64) → p < 2 ^ 64
    later none e ih = ground (arith, rw (e, last_result) at h, a.0)
    later (some q) e ih = ih (e ∙ (rw (e, last_result) at h))

-- Reading back the bytes that were written gives the number.
read_bytes-cons : (n at b : ℕ) (bs : List ℕ) → read_bytes n (suc at) (b ∷ bs) ≡ read_bytes n at bs
unfolding read_bytes
read_bytes-cons zero at b bs = refl
read_bytes-cons (suc n) at b bs =
    let next : suc at + 1 ≡ suc (at + 1) = omega arith in rw (next, read_bytes-cons n (at + 1) b bs)

pub read-write_bytes :
    (n v : ℕ) (rest : List ℕ) → v < 256 ^ n → read_bytes n 0 (write_bytes n v ++ rest) ≡ v
unfolding read_bytes write_bytes
read-write_bytes zero v rest h = omega arith
read-write_bytes (suc n) v rest h = omega (
  arith,
  read_bytes-cons n 0 (v % 2 ^ 8) (write_bytes n (v / 2 ^ 8) ++ rest),
  read-write_bytes n (v / 2 ^ 8) rest (omega (arith, pow-suc 256 n)),
)

-- The response to an entry carries its id, and the pointer that the last deck with a result
-- returned in its first eight bytes, or no result. Its status is SUCCESS and its error code 0
-- whatever the entry's state, abort flag and error code are.
pub collect_results_lem :
    (now : ℕ) (e : RoutingEntry)
    → All (λ r. r < 2 ^ 64) e.deck_results
    → let r = collect_results now e in
      (r.event_id ≡ e.event_id)
      × (r.status ≡ EventStatus.success)
      × (r.error_code ≡ 0)
      × (((last_result e.deck_results ≡ none) × (r.result_size ≡ 0))
          ⊎ ((p : ℕ) × (last_result e.deck_results ≡ some p)
              × (r.result_size ≡ 8)
              × (read_u64 0 r.result ≡ p)))
unfolding collect_results response_init
collect_results_lem now e small = go (last_result e.deck_results) refl
  where
    go :
        (o : Option ℕ)
        → last_result e.deck_results ≡ o
        → let r = collect_results now e in
          (r.event_id ≡ e.event_id)
          × (r.status ≡ EventStatus.success)
          × (r.error_code ≡ 0)
          × (((last_result e.deck_results ≡ none) × (r.result_size ≡ 0))
              ⊎ ((p : ℕ) × (last_result e.deck_results ≡ some p)
                  × (r.result_size ≡ 8)
                  × (read_u64 0 r.result ≡ p)))
    go none h = rw (h, collect_results) (refl, refl, refl, inl (refl, refl))
    go (some p) h =
        rw (h, collect_results)
          (
            refl,
            refl,
            refl,
            inr (
              p,
              refl,
              refl,
              read-write_bytes 8 p _ (last_result_small e.deck_results p small h),
            ),
          )

module _ (pause : ℕ → RingBuffer Response → RingBuffer Response) where
  -- The wait ends at once when the ring has room: the response goes behind the ring's contents.
  send_response-room :
      (fuel : ℕ) {ring : RingBuffer Response} (r : Response)
      → Inv.IsValid ring_buffer_size ring
      → length (contents ring_buffer_size ring) < ring_buffer_size
      → (ring' : RingBuffer Response) × (send_response pause (suc fuel) ring r ≡ some ring')
        × (contents ring_buffer_size ring' ≡ contents ring_buffer_size ring ++ r ∷ [])
        × Inv.IsValid ring_buffer_size ring'
  unfolding send_response
  send_response-room fuel {ring} r v h =
      let (ok, e) = ring_push-append ring_buffer_size-IsRingSize r v h in
      (
        (ring_push ring_buffer_size ring r).1,
        rw ok,
        e,
        ring_push-IsValid ring_buffer_size-IsRingSize r v,
      )

  -- When nobody takes from a valid, full ring the wait has no end: no number of tries is enough.
  pub send_response-stuck :
      (fuel : ℕ) {ring : RingBuffer Response} (r : Response)
      → ((n : ℕ) (q : RingBuffer Response) → pause n q ≡ q)
      → Inv.IsValid ring_buffer_size ring
      → ring_buffer_size ≤ length (contents ring_buffer_size ring)
      → send_response pause fuel ring r ≡ none
  unfolding send_response
  send_response-stuck zero r quiet v full = refl
  send_response-stuck (suc fuel) {ring} r quiet v full =
      let (refused, e) = ring_push-full ring_buffer_size-IsRingSize r v full in
      rw (refused, quiet)
        (send_response-stuck fuel r quiet (ring_push-IsValid ring_buffer_size-IsRingSize r v)
          (rw e full))

  -- With room in a valid ring and a valid table, an entry's response is sent behind the ring's
  -- contents, its slot in the routing table is freed, and no other id is affected.
  pub process_completed_event_lem :
      (fuel now j : ℕ) (e : RoutingEntry) (x : Execution)
      → Inv.IsValid ring_buffer_size x.response_ring
      → length (contents ring_buffer_size x.response_ring) < ring_buffer_size
      → Invariant.IsValid x.guide.routing_table
      → e.event_id ≢ 0
      → j ≢ 0
      → (x' : Execution) × (process_completed_event pause (suc fuel) now e x ≡ some x')
        × (contents ring_buffer_size x'.response_ring
            ≡ contents ring_buffer_size x.response_ring ++ collect_results now e ∷ [])
        × Invariant.IsValid x'.guide.routing_table
        × (get x'.guide.routing_table j
            ≡ (if e.event_id == j then none else get x.guide.routing_table j))
  unfolding process_completed_event
  process_completed_event_lem fuel now j e x v room t nz nj =
      let (ring, sent, appended, _) = send_response-room fuel (collect_results now e) v room in
      (
        record {
          guide = record x.guide {
            routing_table = (routing_table_remove x.guide.routing_table e.event_id).1;
          };
          response_ring = ring;
          stats = record x.stats {
            responses_sent = u64 (x.stats.responses_sent + 1);
            events_executed = u64 (x.stats.events_executed + 1);
          };
        },
        rw (sent, process_completed_event),
        appended,
        routing_table_remove-IsValid t e.event_id nz,
        (get-routing_table_remove t e.event_id j nz nj).1,
      )
