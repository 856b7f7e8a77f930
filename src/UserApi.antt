-- ===== src/UserApi.antt =====
-- The library of user space: src/kernel/eventdriven/userlib/eventapi.c. It builds events, puts them
-- into the ring to the kernel, and looks up responses through a cache of 32. A ring pointer that is
-- NULL is `none`. The wait for room in `eventapi_submit_event` has no bound in the source and
-- `fuel` tries here; `pause` is what the kernel does to the ring meanwhile.
pub mod Poll
pub mod Accepted
use box_kernel.Base.{
  ℕ, zero, suc, ◌+◌, ◌-◌, ◌%◌, ◌&&◌, Bool, true, false, Option, none, some, List, [], ◌∷◌, ltb,
  ◌==◌, if◌then◌else◌, get_or, take, set, update,
}
use box_kernel.Ring.{ring_count}
use box_kernel.Events.{Event, Response, event_init, event_data_size}
use box_kernel.Events.EventType
use box_kernel.Events.Rings.{
  EventRingBuffer, event_ring_push, ResponseRingBuffer, response_ring_pop,
}
use box_kernel.Execution.{write_bytes}

abbrev pub response_cache_size : ℕ
response_cache_size = 32

pub record UserApi : Type 0 where
  pub to_kernel_ring : Option EventRingBuffer
  pub from_kernel_ring : Option ResponseRingBuffer
  pub response_cache : ℕ → Response
  pub response_cache_valid : ℕ → Bool
  pub current_user_id : ℕ

unfoldable pub eventapi_init : EventRingBuffer → ResponseRingBuffer → UserApi → UserApi
eventapi_init to_kernel from_kernel u = record u {
  to_kernel_ring = some to_kernel;
  from_kernel_ring = some from_kernel;
  response_cache_valid = λ i. if ltb i response_cache_size then false else u.response_cache_valid i;
}

-- the event as it is submitted
abbrev pub submitted : ℕ → Event → Event
submitted user_id event = record event { id = 0; user_id = user_id; timestamp = 0 }

module _ (pause : ℕ → EventRingBuffer → EventRingBuffer) where
  -- `while (!event_ring_push(…)) cpu_pause();`
  unfoldable pub submit : ℕ → EventRingBuffer → Event → Option EventRingBuffer
  submit zero ring event = none
  submit (suc fuel) ring event =
      let (ok, ring') = event_ring_push ring event in
      let rest = submit fuel (pause fuel ring') event in if ok then some ring' else rest

  -- The number returned is 0 in any case.
  unfoldable pub eventapi_submit_event : ℕ → Event → UserApi → Option (ℕ × UserApi)
  eventapi_submit_event fuel event u = elim u.to_kernel_ring [
    | none ↦ some (0, u)
    | some ring ↦ elim (submit fuel ring (submitted u.current_user_id event)) [
      | none ↦ none
      | some ring' ↦ some (0, record u { to_kernel_ring = some ring' })
    ]
  ]

-- bytes written one after the other
unfoldable pub put_bytes : List ℕ → ℕ → List ℕ → List ℕ
put_bytes [] at payload = payload
put_bytes (b ∷ bs) at payload = put_bytes bs (at + 1) (set payload at b)

-- the events of `eventapi_memory_alloc` and of the functions behind it, up to their submission; a
-- descriptor is the number of its four bytes
unfoldable pub memory_alloc_event : ℕ → ℕ → Event
unfolding event_init
memory_alloc_event user_id size =
    let event = event_init EventType.memory_alloc user_id in
    record event { payload = put_bytes (write_bytes 8 size) 0 event.payload }

unfoldable pub memory_free_event : ℕ → ℕ → Event
unfolding event_init
memory_free_event user_id addr =
    let event = event_init EventType.memory_free user_id in
    record event { payload = put_bytes (write_bytes 8 addr) 0 event.payload }

unfoldable pub file_close_event : ℕ → ℕ → Event
unfolding event_init
file_close_event user_id fd =
    let event = event_init EventType.file_close user_id in
    record event { payload = put_bytes (write_bytes 4 fd) 0 event.payload }

unfoldable pub file_read_event : ℕ → ℕ → ℕ → Event
unfolding event_init
file_read_event user_id fd size =
    let event = event_init EventType.file_read user_id in
    record event {
      payload = put_bytes (write_bytes 8 size) 4 (put_bytes (write_bytes 4 fd) 0 event.payload);
    }

-- `size` is also the number of bytes copied, when they fit
unfoldable pub file_write_event : ℕ → ℕ → List ℕ → ℕ → Event
unfolding event_init
file_write_event user_id fd bytes size =
    let event = event_init EventType.file_write user_id in
    let copy_size = if ltb (event_data_size - 12) size then event_data_size - 12 else size in
    record event {
      payload =
          put_bytes (take copy_size bytes) 12
            (put_bytes (write_bytes 8 size) 4 (put_bytes (write_bytes 4 fd) 0 event.payload));
    }

-- the loop that copies a path, with room for `n` bytes from `at` on, and the terminator behind it
unfoldable pub copy_path : List ℕ → ℕ → ℕ → List ℕ → List ℕ
copy_path path zero at payload = set payload at 0
copy_path [] (suc n) at payload = set payload at 0
copy_path (c ∷ cs) (suc n) at payload =
    let rest = copy_path cs n (at + 1) (set payload at c) in
    if c == 0 then set payload at 0 else rest

unfoldable pub file_open_event : ℕ → List ℕ → Event
unfolding event_init
file_open_event user_id path =
    let event = event_init EventType.file_open user_id in
    record event { payload = copy_path path (event_data_size - 1) 0 event.payload }

-- the response enters the cache, at its id's place
abbrev pub cached : Response → UserApi → UserApi
cached r u =
    let idx = r.event_id % response_cache_size in
    record u {
      response_cache = update u.response_cache idx r;
      response_cache_valid = update u.response_cache_valid idx true;
    }

-- The loop over the ring, of at most `n` steps.
unfoldable pub poll_loop : ℕ → ℕ → ResponseRingBuffer → UserApi → Option Response × UserApi
poll_loop zero event_id ring u = (none, record u { from_kernel_ring = some ring })
poll_loop (suc n) event_id ring u =
    let (out, ring') = response_ring_pop ring in
    elim out [
      | none ↦ (none, record u { from_kernel_ring = some ring' })
      | some temp ↦
          let u' = cached temp u in
          let rest = poll_loop n event_id ring' u' in
          if temp.event_id == event_id
          then (some temp, record u' { from_kernel_ring = some ring' })
          else rest
    ]

-- The poll, given the ring; the ring's count is the number of steps that empties it.
unfoldable pub poll_ring : ℕ → UserApi → Option ResponseRingBuffer → Option Response × UserApi
poll_ring event_id u none = (none, u)
poll_ring event_id u (some ring) =
    let cache_index = event_id % response_cache_size in
    let entry = u.response_cache cache_index in
    if u.response_cache_valid cache_index && (entry.event_id == event_id)
    then (some entry, u)
    else poll_loop (ring_count ring) event_id ring u

unfoldable pub eventapi_poll_response : ℕ → UserApi → Option Response × UserApi
eventapi_poll_response event_id u = poll_ring event_id u u.from_kernel_ring

-- the loop of `eventapi_pending_count`, over the `n` places from `i` on
unfoldable pub count_valid : (ℕ → Bool) → ℕ → ℕ → ℕ
count_valid valid i zero = 0
count_valid valid i (suc n) =
    let rest = count_valid valid (i + 1) n in if valid i then rest + 1 else rest

unfoldable pub eventapi_pending_count : UserApi → ℕ
eventapi_pending_count u = count_valid u.response_cache_valid 0 response_cache_size
