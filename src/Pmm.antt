-- ===== src/Pmm.antt =====
-- The physical memory manager: src/kernel/core/memory/pmm/pmm.c and pmm.h. It keeps one bit to a
-- page of 4096 bytes, set while the page is in use, and hands out runs of pages. A call holds the
-- zone's lock throughout, so it is one step and the lock is not part of the state. The bitmap's
-- bytes are a function of their index. A panic stops the kernel: the result is `none`.
pub mod Init
pub mod Bitmap
pub mod Search
pub mod Alloc
pub mod Free
use box_kernel.Base.{
  ℕ, zero, suc, ◌+◌, ◌-◌, ◌*◌, ◌/◌, ◌%◌, ◌^◌, Bool, true, false, not, ◌&&◌, ◌||◌, Option, none,
  some, List, [], ◌∷◌, bit_and, bit_or, ltb, leb, ◌==◌, if◌then◌else◌, u64, sub64, update,
}

abbrev pub pmm_page_size : ℕ
pmm_page_size = 4096

-- `pmm_frame_state_t`
pub data FrameState : Type 0 where
  free used reserved kernel bad : FrameState

-- `pmm_zone` and `pmm_initialized`
pub record Zone : Type 0 where
  pub base : ℕ
  pub pages : ℕ
  pub bitmap : ℕ → ℕ
  pub last_free : ℕ
  pub initialized : Bool

-- the bitmap's byte with the bit cleared or set
abbrev pub mark : FrameState → ℕ → ℕ → ℕ
mark FrameState.free byte offset = bit_and byte (255 - 2 ^ offset)
mark _ byte offset = bit_or byte (2 ^ offset)

unfoldable pub pmm_set_bit : Zone → ℕ → FrameState → Zone
pmm_set_bit z bit state = record z {
  bitmap = update z.bitmap (bit / 8) (mark state (z.bitmap (bit / 8)) (bit % 8));
}

-- whether the state is PMM_FRAME_USED; it is PMM_FRAME_FREE otherwise
unfoldable pub pmm_get_bit : Zone → ℕ → Bool
pmm_get_bit z bit = not (bit_and (z.bitmap (bit / 8)) (2 ^ (bit % 8)) == 0)

-- the loops that set the `n` bits from `first` on
unfoldable pub set_bits : Zone → ℕ → ℕ → FrameState → Zone
set_bits z first zero state = z
set_bits z first (suc n) state = set_bits (pmm_set_bit z first state) (first + 1) n state

-- One of the two loops of the search, over the `n` pages from `i` on; `consecutive` free pages
-- stand just before `i`.
unfoldable pub search : Zone → ℕ → ℕ → ℕ → ℕ → Option ℕ
search z count i zero consecutive = none
search z count i (suc n) consecutive =
    let is_free = not (pmm_get_bit z i) in
    let consecutive' = if is_free then consecutive + 1 else 0 in
    let rest = search z count (i + 1) n consecutive' in
    if is_free && (consecutive' == count) then some (u64 (sub64 i count + 1)) else rest

-- `none` is `(size_t)-1`
unfoldable pub pmm_find_free_sequence : Zone → ℕ → Option ℕ × Zone
pmm_find_free_sequence z count = elim (search z count z.last_free (z.pages - z.last_free) 0) [
  | some start ↦ (some start, record z { last_free = start })
  | none ↦ elim (search z count 0 z.last_free 0) [
    | some start ↦ (some start, record z { last_free = start })
    | none ↦ (none, z)
  ]
]

-- what becomes of the result of the search
unfoldable pub claim : ℕ → Option ℕ × Zone → Option ℕ × Zone
claim pages (none, z) = (none, z)
claim pages (some start, z) =
    (some (u64 (z.base + start * pmm_page_size)), set_bits z start pages FrameState.used)

-- `none` is NULL
unfoldable pub pmm_alloc : Zone → ℕ → Option ℕ × Zone
pmm_alloc z pages =
    if (pages == 0) || not z.initialized
    then (none, z)
    else claim pages (pmm_find_free_sequence z pages)

-- the loop that looks for a page that is free already
unfoldable pub any_free : Zone → ℕ → ℕ → Bool
any_free z first zero = false
any_free z first (suc n) = let rest = any_free z (first + 1) n in not (pmm_get_bit z first) || rest

unfoldable pub pmm_free : Zone → ℕ → ℕ → Option Zone
pmm_free z addr pages =
    if (addr == 0) || (pages == 0) || not z.initialized
    then some z
    else if ltb addr z.base || leb (u64 (z.base + z.pages * pmm_page_size)) addr
    then none
    else (let first = (addr - z.base) / pmm_page_size in
        let n = u64 (first + pages) - first in
        if any_free z first n
        then none
        else (let z' = set_bits z first n FrameState.free in
            some (if ltb first z'.last_free then record z' { last_free = first } else z')))

-- the loop of `pmm_free_pages`
unfoldable pub count_free : Zone → ℕ → ℕ → ℕ
count_free z i zero = 0
count_free z i (suc n) =
    let rest = count_free z (i + 1) n in if pmm_get_bit z i then rest else rest + 1

unfoldable pub pmm_total_pages : Zone → ℕ
pmm_total_pages z = z.pages

unfoldable pub pmm_free_pages : Zone → ℕ
pmm_free_pages z = count_free z 0 z.pages

unfoldable pub pmm_used_pages : Zone → ℕ
pmm_used_pages z = sub64 (pmm_total_pages z) (pmm_free_pages z)
