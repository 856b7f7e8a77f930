-- ===== src/Vmm/Contexts.antt =====
-- The contexts of vmm.c, made and destroyed, the start of the manager and the handler of page
-- faults. `none` is a panic. What `kmalloc` returned is an argument; 0 is NULL.
use box_kernel.Base.{
  ℕ, zero, suc, ◌+◌, ◌-◌, ◌*◌, ◌/◌, Bool, true, false, not, ◌&&◌, ◌||◌, Option, none, some, bit_and,
  bit_or, ltb, leb, ◌==◌, if◌then◌else◌, u64, update, min,
}
use box_kernel.Pmm.{Zone, pmm_alloc, pmm_free, pmm_total_pages, pmm_page_size}
use box_kernel.Vmm.{
  Vmm, Context, vmm_page_size, page_mask, flag_present, flag_user, flag_large_page, flags_kernel_rw,
  has_flag, kernel_heap_base, kernel_heap_size, user_heap_base, user_stack_top, phys_map_base,
  phys_map_size, vmm_pte_to_phys, vmm_phys_to_virt, write_entry, set_zone, set_context, lessen,
  vmm_alloc_page_table, vmm_free_page_table,
}
use box_kernel.Vmm.Page.{vmm_map_page}

-- `memset(ctx, 0, sizeof(vmm_context_t))`, then the fields that are set
abbrev pub new_context : ℕ → Context
new_context pml4_phys = record {
  pml4 = pml4_phys;
  pml4_phys = pml4_phys;
  mapped_pages = 0;
  kernel_pages = 0;
  user_pages = 0;
  heap_start = user_heap_base;
  heap_end = user_heap_base;
  stack_top = user_stack_top;
}

-- the loop that copies the entries of the upper half
unfoldable pub copy_upper : (ℕ → ℕ) → (ℕ → ℕ) → ℕ → ℕ
copy_upper to from i = if leb 256 i && ltb i 512 then from i else to i

-- the context `ctx` with the top table at `pml4_phys`
unfoldable pub fill_context : Vmm → ℕ → ℕ → Vmm
fill_context s ctx pml4_phys =
    let s1 = set_context s ctx (new_context pml4_phys) in
    let kernel = s.kernel_context in
    let memory' =
      if not (kernel == 0) && not ((s1.contexts kernel).pml4 == 0)
      then update s1.memory pml4_phys
          (copy_upper (s1.memory pml4_phys) (s1.memory (s1.contexts kernel).pml4))
      else s1.memory in
    record s1 {
      memory = memory';
      stats = record s1.stats { total_contexts = u64 (s1.stats.total_contexts + 1) };
    }

unfoldable pub with_table : ℕ → Option ℕ × Vmm → ℕ × Vmm
with_table ctx (none, s) = (0, s)
with_table ctx (some pml4_phys, s) = (ctx, fill_context s ctx pml4_phys)

-- `ctx` is what `kmalloc` returned; the result is NULL without it or without a table.
unfoldable pub vmm_create_context : Vmm → ℕ → ℕ × Vmm
vmm_create_context s ctx = if ctx == 0 then (0, s) else with_table ctx (vmm_alloc_page_table s)

-- after a panic nothing
abbrev pub if_some : Option Vmm → (Vmm → Option Vmm) → Option Vmm
if_some none go = none
if_some (some s) go = go s

-- the loops over entries, the `n` from the i-th on; a panic ends them
unfoldable pub for_entries : (ℕ → Vmm → Option Vmm) → ℕ → ℕ → Vmm → Option Vmm
for_entries body i zero s = some s
for_entries body i (suc n) s = if_some (body i s) (λ s'. for_entries body (i + 1) n s')

abbrev pub free_frames : Vmm → ℕ → ℕ → Option Vmm
free_frames s phys count = elim (pmm_free s.zone phys count) [
  | none ↦ none
  | some z ↦ some (set_zone s z)
]

-- The bodies of the four loops of `vmm_free_user_space_tables`. They hand the virtual address of a
-- table to `vmm_free_page_table`.
unfoldable pub free_pt_entry : ℕ → ℕ → Vmm → Option Vmm
free_pt_entry pt p1 s =
    let entry = s.memory pt p1 in
    if not (has_flag entry flag_present)
    then some s
    else if_some (free_frames s (vmm_pte_to_phys entry) 1) (λ s'. some (write_entry s' pt p1 0))

-- frees a table and clears the entry that led to it
unfoldable pub drop_table : ℕ → ℕ → ℕ → Vmm → Option Vmm
drop_table child table i s =
    if_some (vmm_free_page_table s (vmm_phys_to_virt child)) (λ s'. some (write_entry s' table i 0))

unfoldable pub free_pd_entry : ℕ → ℕ → Vmm → Option Vmm
free_pd_entry pd p2 s =
    let entry = s.memory pd p2 in
    let pt = vmm_pte_to_phys entry in
    if not (has_flag entry flag_present)
    then some s
    else if has_flag entry flag_large_page
    then free_frames s pt 512
    else if_some (for_entries (free_pt_entry pt) 0 512 s) (drop_table pt pd p2)

unfoldable pub free_pdpt_entry : ℕ → ℕ → Vmm → Option Vmm
free_pdpt_entry pdpt p3 s =
    let entry = s.memory pdpt p3 in
    let pd = vmm_pte_to_phys entry in
    if not (has_flag entry flag_present)
    then some s
    else if has_flag entry flag_large_page
    then free_frames s pd (512 * 512)
    else if_some (for_entries (free_pd_entry pd) 0 512 s) (drop_table pd pdpt p3)

unfoldable pub free_pml4_entry : ℕ → ℕ → Vmm → Option Vmm
free_pml4_entry pml4 p4 s =
    let entry = s.memory pml4 p4 in
    let pdpt = vmm_pte_to_phys entry in
    if not (has_flag entry flag_present)
    then some s
    else if_some (for_entries (free_pdpt_entry pdpt) 0 512 s) (drop_table pdpt pml4 p4)

unfoldable pub vmm_free_user_space_tables : Vmm → ℕ → Option Vmm
vmm_free_user_space_tables s ctx =
    let pml4 = (s.contexts ctx).pml4 in
    if (ctx == 0) || (pml4 == 0) then some s else for_entries (free_pml4_entry pml4) 0 256 s

unfoldable pub vmm_destroy_context : Vmm → ℕ → Option Vmm
vmm_destroy_context s ctx =
    if (ctx == 0) || (ctx == s.kernel_context)
    then some s
    else if_some (vmm_free_user_space_tables s ctx) (λ s'.
      if_some (vmm_free_page_table s' (s'.contexts ctx).pml4_phys) (λ s''. some (record s'' {
        stats = record s''.stats { total_contexts = lessen s''.stats.total_contexts };
      })))

unfoldable pub vmm_flush_tlb : Vmm → Vmm
vmm_flush_tlb s = record s {
  stats = record s.stats { tlb_flushes = u64 (s.stats.tlb_flushes + 1) };
}

unfoldable pub vmm_switch_context : Vmm → ℕ → Vmm
vmm_switch_context s ctx =
    if (ctx == 0) || ((s.contexts ctx).pml4_phys == 0)
    then s
    else vmm_flush_tlb (record s { current_context = ctx })

-- the loops of `vmm_init` that map the `n` pages from `virt` on; a page that fails is passed over
unfoldable pub map_each : ℕ → ℕ → ℕ → ℕ → Vmm → Vmm
map_each ctx virt phys zero s = s
map_each ctx virt phys (suc n) s =
    map_each ctx (virt + vmm_page_size) (phys + vmm_page_size) n
      (vmm_map_page s ctx virt phys flags_kernel_rw).1

-- the rest of `vmm_init`, with its kernel context
unfoldable pub init_with : ℕ × Vmm → Option Vmm
init_with (ctx, s) =
    let s1 = record s { kernel_context = ctx } in
    let phys_to_map = min (u64 (pmm_total_pages s1.zone * pmm_page_size)) phys_map_size in
    let direct =
      map_each ctx phys_map_base 0 ((phys_to_map + (vmm_page_size - 1)) / vmm_page_size) s1 in
    let identity = map_each ctx 0 0 (0x1000000 / vmm_page_size) direct in
    if ctx == 0
    then none
    else some (record (vmm_switch_context (record identity { current_context = ctx }) ctx) {
      vmm_initialized = true;
    })

-- The tests of memory between the steps, which panic when a write is not read back, are left out.
unfoldable pub vmm_init : Vmm → ℕ → Option Vmm
vmm_init s ctx = if s.vmm_initialized then some s else init_with (vmm_create_context s ctx)

-- a fresh frame mapped at the page of a fault; `false` is -1
unfoldable pub fault_frame : Vmm → ℕ → ℕ → Option ℕ × Zone → Option (Bool × Vmm)
fault_frame s page_addr flags (none, z) = some (false, set_zone s z)
fault_frame s page_addr flags (some frame, z) =
    let (r, s') = vmm_map_page (set_zone s z) s.kernel_context page_addr frame flags in
    if r.success
    then some (true, s')
    else elim (pmm_free s'.zone frame 1) [ none ↦ none | some z' ↦ some (false, set_zone s' z') ]

-- `true` is 0, handled
unfoldable pub vmm_handle_page_fault : Vmm → ℕ → ℕ → Option (Bool × Vmm)
vmm_handle_page_fault s fault_addr error_code =
    let page_addr = bit_and fault_addr page_mask in
    if has_flag error_code 8 || has_flag error_code 1
    then some (false, s)
    else if leb kernel_heap_base page_addr && ltb page_addr (kernel_heap_base + kernel_heap_size)
    then fault_frame s page_addr
        (if has_flag error_code 4 then bit_or flags_kernel_rw flag_user else flags_kernel_rw)
        (pmm_alloc s.zone 1)
    else if ltb page_addr (256 * 1024 * 1024)
    then fault_frame s page_addr flags_kernel_rw (pmm_alloc s.zone 1)
    else some (false, s)
