-- ===== src/Vmm/Region.antt =====
-- Regions of an address space in vmm.c: `vmm_find_free_region`, which looks for unmapped pages, and
-- the allocations of pages and of kernel memory.
-- `none` is the panic of `pmm_free`. What `kmalloc` returned is an argument; 0 is NULL.
pub mod Rounds
pub mod FirstFit
pub mod Fresh
use box_kernel.Base.{
  ℕ, zero, suc, ◌+◌, ◌-◌, ◌*◌, ◌/◌, ◌%◌, ◌^◌, Bool, true, false, not, ◌&&◌, ◌||◌, Option, none,
  some, List, [], ◌∷◌, ltb, leb, ◌==◌, if◌then◌else◌, u64, first_from,
}
use box_kernel.Pmm.{Zone, pmm_alloc, pmm_free}
use box_kernel.Vmm.{
  Vmm, VmallocEntry, MapResult, vmm_page_size, flag_user, flags_kernel_rw, has_flag,
  kernel_heap_base, kernel_heap_size, user_base, user_stack_top, vmm_page_align_up,
  vmm_page_align_down, vmm_size_to_pages, vmm_pages_to_size, set_zone,
}
use box_kernel.Vmm.Page.{
  vmm_is_mapped, vmm_virt_to_phys, vmm_map_pages, vmm_unmap_page, vmm_unmap_pages,
  vmm_get_page_flags,
}

-- whether page `i` from an address on is mapped
abbrev pub page_mapped : Vmm → ℕ → ℕ → ℕ → Bool
page_mapped s ctx current i = vmm_is_mapped s ctx (u64 (current + i * vmm_page_size))

-- the end of a round that met a mapped page: the search goes on behind it, unless that is out of
-- bounds
unfoldable pub jump : (ℕ → Option ℕ) → ℕ → Bool → Option ℕ
jump go next true = some 0
jump go next false = go (vmm_page_align_up next)

-- a round with the first mapped page of the region, if it has one
unfoldable pub round : (ℕ → Option ℕ) → ℕ → ℕ → Option ℕ → Option ℕ
round go end current none = some current
round go end current (some i) =
    let next = u64 (current + (i + 1) * vmm_page_size) in
    jump go next (leb next current || leb end next)

-- The rounds of the search; `none` is out of fuel.
unfoldable pub region_from : ℕ → Vmm → ℕ → ℕ → ℕ → ℕ → Option ℕ
region_from zero s ctx pages end current = none
region_from (suc fuel) s ctx pages end current =
    elim (leb (u64 (current + vmm_pages_to_size pages)) end) [
      | false ↦ some 0
      | true ↦
          round (λ next. region_from fuel s ctx pages end next) end current
            (first_from (page_mapped s ctx current) 0 pages)
    ]

-- the rounds that suffice
abbrev pub region_fuel : ℕ → ℕ
region_fuel end = end / vmm_page_size + 1

abbrev pub or_null : Option ℕ → ℕ
or_null none = 0
or_null (some a) = a

unfoldable pub vmm_find_free_region : Vmm → ℕ → ℕ → ℕ → ℕ → ℕ
vmm_find_free_region s ctx size start end =
    if (ctx == 0) || (size == 0) || leb end start
    then 0
    else or_null
        (region_from (region_fuel end) s ctx (vmm_size_to_pages size) end (vmm_page_align_up start))

-- gives the frames back, and returns NULL
unfoldable pub give_back : Vmm → ℕ → ℕ → Option (ℕ × Vmm)
give_back s frame count = elim (pmm_free s.zone frame count) [
  | none ↦ none
  | some z ↦ some (0, set_zone s z)
]

-- The loop that maps the frames, with its rollback, is the one of `vmm_map_pages`.
unfoldable pub map_frames : ℕ → ℕ → ℕ → ℕ → ℕ → MapResult × Vmm → Option (ℕ × Vmm)
map_frames ctx virt_base frame count flags (r, s) =
    if r.success then some (virt_base, s) else give_back s frame count

-- a place for user pages
unfoldable pub alloc_user : Vmm → ℕ → ℕ → ℕ → ℕ → Option (ℕ × Vmm)
alloc_user s ctx frame count flags =
    let virt_base = vmm_find_free_region s ctx (vmm_pages_to_size count) user_base user_stack_top in
    if virt_base == 0
    then give_back s frame count
    else map_frames ctx virt_base frame count flags
        (vmm_map_pages s ctx virt_base frame count flags)

-- a place for kernel pages: the next of the kernel heap
unfoldable pub alloc_kernel : Vmm → ℕ → ℕ → ℕ → ℕ → Option (ℕ × Vmm)
alloc_kernel s ctx frame count flags =
    let virt_base = s.kernel_heap_current in
    if ltb (kernel_heap_base + kernel_heap_size) (u64 (virt_base + vmm_pages_to_size count))
    then give_back s frame count
    else (let s' = record s { kernel_heap_current = u64 (virt_base + vmm_pages_to_size count) } in
        map_frames ctx virt_base frame count flags
          (vmm_map_pages s' ctx virt_base frame count flags))

unfoldable pub alloc_frames : Vmm → ℕ → ℕ → ℕ → Option ℕ × Zone → Option (ℕ × Vmm)
alloc_frames s ctx count flags (none, z) = some (0, set_zone s z)
alloc_frames s ctx count flags (some frame, z) =
    if has_flag flags flag_user
    then alloc_user (set_zone s z) ctx frame count flags
    else alloc_kernel (set_zone s z) ctx frame count flags

unfoldable pub vmm_alloc_pages : Vmm → ℕ → ℕ → ℕ → Option (ℕ × Vmm)
vmm_alloc_pages s ctx page_count flags =
    if (ctx == 0) || (page_count == 0)
    then some (0, s)
    else alloc_frames s ctx page_count flags (pmm_alloc s.zone page_count)

-- the physical addresses of the `n` pages from the i-th on
unfoldable pub collect : Vmm → ℕ → ℕ → ℕ → ℕ → List ℕ
collect s ctx virt_base i zero = []
collect s ctx virt_base i (suc n) =
    vmm_virt_to_phys s ctx (u64 (virt_base + i * vmm_page_size)) ∷ collect s ctx virt_base (i + 1) n

-- frees the pages that were mapped
unfoldable pub free_each : List ℕ → Vmm → Option Vmm
free_each [] s = some s
free_each (phys ∷ rest) s =
    if phys == 0
    then free_each rest s
    else elim (pmm_free s.zone phys 1) [ none ↦ none | some z ↦ free_each rest (set_zone s z) ]

-- `phys_addrs` is the array that `kmalloc` returned: without it no page is freed.
unfoldable pub vmm_free_pages : Vmm → ℕ → ℕ → ℕ → ℕ → Option Vmm
vmm_free_pages s ctx virt_addr page_count phys_addrs =
    if (ctx == 0) || (virt_addr == 0) || (page_count == 0)
    then some s
    else (let found = collect s ctx virt_addr 0 page_count in
        let s' = (vmm_unmap_pages s ctx virt_addr page_count).1 in
        if phys_addrs == 0 then some s' else free_each found s')

unfoldable pub vmm_get_current_context : Vmm → ℕ
vmm_get_current_context s = if s.current_context == 0 then s.kernel_context else s.current_context

-- records an allocation that succeeded, if `kmalloc` returned a place for the record
unfoldable pub record_allocation : ℕ → ℕ → Option (ℕ × Vmm) → Option (ℕ × Vmm)
record_allocation page_count ent none = none
record_allocation page_count ent (some (virt, s)) =
    if (virt == 0) || (ent == 0)
    then some (virt, s)
    else some (
      virt,
      record s { vmalloc_list = record { virt_base = virt; pages = page_count } ∷ s.vmalloc_list },
    )

unfoldable pub vmalloc : Vmm → ℕ → ℕ → Option (ℕ × Vmm)
vmalloc s size ent =
    if (size == 0) || not s.vmm_initialized || (vmm_get_current_context s == 0)
    then some (0, s)
    else record_allocation (vmm_size_to_pages size) ent
        (vmm_alloc_pages s (vmm_get_current_context s) (vmm_size_to_pages size) flags_kernel_rw)

-- the record of an address, and the list without it
unfoldable pub take_entry : ℕ → List VmallocEntry → Option (VmallocEntry × List VmallocEntry)
take_entry addr [] = none
take_entry addr (cur ∷ rest) =
    if cur.virt_base == addr then some (cur, rest) else elim (take_entry addr rest) [
      | none ↦ none
      | some (found, others) ↦ some (found, cur ∷ others)
    ]

-- an address that is not recorded: the one page at it is unmapped and freed
unfoldable pub vfree_unrecorded : Vmm → ℕ → Option Vmm
vfree_unrecorded s addr =
    let phys = vmm_virt_to_phys s (vmm_get_current_context s) addr in
    if phys == 0
    then some s
    else (let s' = (vmm_unmap_page s (vmm_get_current_context s) addr).1 in
        elim (pmm_free s'.zone phys 1) [ none ↦ none | some z ↦ some (set_zone s' z) ])

unfoldable pub vfree : Vmm → ℕ → ℕ → Option Vmm
vfree s addr phys_addrs = if addr == 0 then some s else elim (take_entry addr s.vmalloc_list) [
  | some (found, rest) ↦
      vmm_free_pages (record s { vmalloc_list = rest }) (vmm_get_current_context s) addr found.pages
        phys_addrs
  | none ↦ vfree_unrecorded s addr
]

-- what becomes of the frames of a reserved region
unfoldable pub reserve_frames : Vmm → ℕ → ℕ → ℕ → ℕ → Option ℕ × Zone → Option (Bool × Vmm)
reserve_frames s ctx virt_base count flags (none, z) = some (false, set_zone s z)
reserve_frames s ctx virt_base count flags (some frame, z) =
    let (r, s') = vmm_map_pages (set_zone s z) ctx virt_base frame count flags in
    if r.success then some (true, s') else elim (pmm_free s'.zone frame count) [
      | none ↦ none
      | some z' ↦ some (false, set_zone s' z')
    ]

unfoldable pub vmm_reserve_region : Vmm → ℕ → ℕ → ℕ → ℕ → Option (Bool × Vmm)
vmm_reserve_region s ctx start size flags =
    if (ctx == 0) || (size == 0)
    then some (false, s)
    else reserve_frames s ctx (vmm_page_align_down start) (vmm_size_to_pages size) flags
        (pmm_alloc s.zone (vmm_size_to_pages size))

unfoldable pub vmm_is_kernel_addr : ℕ → Bool
vmm_is_kernel_addr addr = leb kernel_heap_base addr

unfoldable pub vmm_is_user_accessible : Vmm → ℕ → Bool
vmm_is_user_accessible s virt_addr =
    let ctx = vmm_get_current_context s in
    if ctx == 0 then false else has_flag (vmm_get_page_flags s ctx virt_addr) flag_user
