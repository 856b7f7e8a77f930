-- ===== src/UserApi/Accepted.antt =====
-- The events of eventapi.c meet the Receiver's validation.
use box_kernel.Base.{
  ℕ, zero, suc, ◌+◌, ◌-◌, ◌^◌, ◌<◌, ◌≡◌, ◌≢◌, refl, inl, inr, true, leb, ◌&&◌, Bool-cases, List, [],
  ◌∷◌, ltb, ◌==◌, ne→==, set, length, length-set, get_or-set_self, replicate, arith,
}
use box_kernel.Events.{event_init, read_u64, event_data_size}
use box_kernel.Receiver.{receiver_validate_event, has_nul}
use box_kernel.Receiver.Validate.{index-has_nul}
use box_kernel.Execution.{write_bytes}
use box_kernel.Execution.Respond.{read-write_bytes}
use box_kernel.UserApi.{put_bytes, copy_path, memory_alloc_event, file_open_event}

has_nul-set : (at : ℕ) (payload : List ℕ) → at < length payload → has_nul (set payload at 0) ≡ true
has_nul-set at payload h =
    index-has_nul (set payload at 0) at (omega (arith, length-set payload at 0))
      (get_or-set_self payload at 0 1 h)

has_nul-copy_path :
    (path : List ℕ) (n at : ℕ) (payload : List ℕ)
    → at + n < length payload
    → has_nul (copy_path path n at payload) ≡ true
unfolding copy_path
has_nul-copy_path path zero at payload h = has_nul-set at payload (omega arith)
has_nul-copy_path [] (suc n) at payload h = has_nul-set at payload (omega arith)
has_nul-copy_path (c ∷ cs) (suc n) at payload h =
    let rest =
      has_nul-copy_path cs n (at + 1) (set payload at c) (omega (arith, length-set payload at c)) in
    elim (Bool-cases (c == 0)) [
      | inl stop ↦ rw stop (has_nul-set at payload (omega arith))
      | inr more ↦ rw more rest
    ]

-- The event that opens a path, of a user other than 0, passes the validation, however long the path
-- is.
pub receiver_validate_event-file_open_event :
    (user_id : ℕ) (path : List ℕ)
    → user_id ≢ 0
    → receiver_validate_event (file_open_event user_id path) ≡ true
unfolding receiver_validate_event file_open_event event_init
receiver_validate_event-file_open_event user_id path h =
    rw
      (
        ne→== user_id 0 h,
        has_nul-copy_path path (event_data_size - 1) 0 (replicate event_data_size 0) (omega arith),
      )
      refl

size_at_front :
    (user_id size : ℕ) → size < 2 ^ 64 → read_u64 0 (memory_alloc_event user_id size).payload ≡ size
unfolding memory_alloc_event event_init put_bytes write_bytes
size_at_front user_id size h = read-write_bytes 8 size (replicate 216 0) h

-- The event of a user other than 0 that asks for `size` bytes, a number of 64 bits, passes the
-- validation exactly for sizes from 1 to 4 GB.
pub receiver_validate_event-memory_alloc_event :
    (user_id size : ℕ)
    → user_id ≢ 0
    → size < 2 ^ 64
    → receiver_validate_event (memory_alloc_event user_id size) ≡ (ltb 0 size && leb size (2 ^ 32))
unfolding receiver_validate_event memory_alloc_event event_init
receiver_validate_event-memory_alloc_event user_id size h small =
    rw (ne→== user_id 0 h, size_at_front user_id size small) (ground arith)
