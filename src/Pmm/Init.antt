-- ===== src/Pmm/Init.antt =====
-- The start of the physical memory manager: pmm.c, `pmm_init`, `pmm_reserve_region` and
-- `pmm_check_integrity`, with the entries of the BIOS's memory map, core/memory/e820/e820.h. The
-- addresses of the kernel's first byte and of the byte behind its last, which the linker sets, are
-- parameters. Messages to the console are not modelled.
pub mod Ready
pub mod Regions
pub mod Pages
use box_kernel.Base.{
  ℕ, zero, suc, ◌+◌, ◌-◌, ◌*◌, ◌/◌, ◌%◌, ◌^◌, Bool, true, false, not, ◌&&◌, ◌||◌, Option, none,
  some, List, [], ◌∷◌, bit_and, ltb, leb, ◌==◌, if◌then◌else◌, u64, sub64,
}
use box_kernel.Pmm.{FrameState, Zone, pmm_page_size, pmm_get_bit, set_bits}

-- `e820_entry_t`
pub record E820Entry : Type 0 where
  pub base : ℕ
  pub length : ℕ
  pub type : ℕ
  pub acpi : ℕ

abbrev pub e820_usable : ℕ
e820_usable = 1

-- ALIGN_DOWN and ALIGN_UP, of a 64-bit address
abbrev pub align_down : ℕ → ℕ → ℕ
align_down addr align = bit_and addr (2 ^ 64 - align)

abbrev pub align_up : ℕ → ℕ → ℕ
align_up addr align = bit_and (u64 (addr + align - 1)) (2 ^ 64 - align)

abbrev pub is_usable : E820Entry → Bool
is_usable e = (e.type == e820_usable) && ltb 0 e.length

-- the loop that looks for the end of the memory, from `mem_end` on
unfoldable pub find_mem_end : List E820Entry → ℕ → ℕ
find_mem_end [] mem_end = mem_end
find_mem_end (e ∷ es) mem_end =
    let region_end = u64 (e.base + e.length) in
    find_mem_end es (if is_usable e && ltb mem_end region_end then region_end else mem_end)

-- the body of the loop that frees the usable regions
unfoldable pub free_region : Zone → E820Entry → Zone
free_region z e =
    let end' = u64 (e.base + e.length) in
    let start = if ltb e.base z.base then z.base else e.base in
    let start_page = (start - z.base) / pmm_page_size in
    let last_page = (end' - z.base) / pmm_page_size in
    let end_page = if ltb z.pages last_page then z.pages else last_page in
    if not (is_usable e) || leb end' z.base || leb end' start
    then z
    else set_bits z start_page (end_page - start_page) FrameState.free

unfoldable pub free_regions : Zone → List E820Entry → Zone
free_regions z [] = z
free_regions z (e ∷ es) = free_regions (free_region z e) es

unfoldable pub pmm_reserve_region : Zone → ℕ → ℕ → Zone
pmm_reserve_region z from to =
    let base = align_down from pmm_page_size in
    let end' = align_up to pmm_page_size in
    let start_page = sub64 base z.base / pmm_page_size in
    let last_page = sub64 end' z.base / pmm_page_size in
    let end_page = if ltb z.pages last_page then z.pages else last_page in
    if leb end' base || leb z.pages start_page
    then z
    else set_bits z start_page (end_page - start_page) FrameState.reserved

module _ (kernel_start kernel_end : ℕ) where
  -- the zone once its place and its size are known: every page in use, then the usable regions
  -- freed, then the kernel and the bitmap reserved
  unfoldable pub start_zone : Zone → List E820Entry → ℕ → ℕ → Zone
  start_zone z entries pages bitmap_at =
      let bitmap_size = (pages + 7) / 8 in
      let all_used = record z {
        base = 0x100000;
        pages = pages;
        bitmap = λ i. if ltb i bitmap_size then 255 else z.bitmap i;
      } in
      let kernel = pmm_reserve_region (free_regions all_used entries) kernel_start kernel_end in
      record (pmm_reserve_region kernel bitmap_at (u64 (bitmap_at + bitmap_size))) {
        initialized = true;
      }

  unfoldable pub pmm_init : Zone → List E820Entry → Option Zone
  pmm_init z entries =
      let mem_end = find_mem_end entries 0 in
      let pages = (mem_end - 0x100000) / pmm_page_size in
      let bitmap_at = align_up kernel_end 4096 in
      if z.initialized
      then some z
      else if is_empty entries || leb mem_end 0x100000 || (pages == 0)
      then none
      else if ltb 0x1000000 (u64 (bitmap_at + (pages + 7) / 8)) || ltb bitmap_at 0x100000
      then none
      else some (start_zone z entries pages bitmap_at)
    where
      is_empty : List E820Entry → Bool
      is_empty [] = true
      is_empty (e ∷ es) = false

  -- the loop of `pmm_check_integrity`, over the `n` pages from `i` on
  unfoldable pub kernel_is_used : Zone → ℕ → ℕ → Bool
  kernel_is_used z i zero = true
  kernel_is_used z i (suc n) =
      let rest = kernel_is_used z (i + 1) n in
      if ltb (u64 (z.base + i * pmm_page_size)) kernel_end && not (pmm_get_bit z i)
      then false
      else rest

  unfoldable pub pmm_check_integrity : Zone → Bool
  pmm_check_integrity z = kernel_is_used z 0 z.pages
