-- ===== src/Tests/Virtual.antt =====
-- Runs of the virtual memory manager on a zone of 16 pages from 1 MB on.
use box_kernel.Base.{
  ℕ, ◌*◌, ◌^◌, ◌≤◌, ◌<◌, ◌≡◌, refl, inl, inr, Bool, true, false, none, some, [], arith,
}
use box_kernel.Pmm.{
  pmm_get_bit, pmm_set_bit, set_bits, search, pmm_find_free_sequence, claim, pmm_alloc,
  pmm_free_pages, count_free,
}
use box_kernel.Vmm.{
  Vmm, Context, Stats, has_flag, vmm_pte_to_flags, vmm_pte_to_phys, vmm_make_pte, write_entry,
  new_table, vmm_alloc_page_table, vmm_is_page_aligned, vmm_flush_tlb_page, vmm_size_to_pages,
  vmm_page_align_down,
}
use box_kernel.Vmm.Table.{
  link, next_table, on_table, descend, vmm_get_or_create_table, entry_of, vmm_get_or_create_pte,
}
use box_kernel.Vmm.Page.{
  vmm_map_page, map_entry, count_mapped, vmm_unmap_page, vmm_map_pages, vmm_virt_to_phys,
  vmm_get_page_flags,
}
use box_kernel.Vmm.Tree.{Places}
use box_kernel.Vmm.Space.{space, IsSpace}
use box_kernel.Vmm.Map.{IsPageFlags, MapOutcome, vmm_map_page-refines}
use box_kernel.Vmm.Unmap.{UnmapOutcome, vmm_unmap_page-refines}
use box_kernel.Vmm.Range.{IsRange}
use box_kernel.Vmm.Fill.{Mapping, vmm_map_pages-refines}
use box_kernel.Vmm.RoundTrip.{virt_to_phys-vmm_map_page, vmm_unmap_page-vmm_map_page}
use box_kernel.Vmm.Region.{vmm_find_free_region, vmm_alloc_pages}
use box_kernel.Vmm.Region.FirstFit.{framed_at, vmm_find_free_region-first}
use box_kernel.Vmm.Region.Rounds.{Fit}
use box_kernel.Vmm.Region.Fresh.{
  Allocated, CanMap, IsHeapPlace, vmm_alloc_pages-maps, vmm_alloc_pages-kernel,
}
use box_kernel.Vmm.Contexts.{
  vmm_create_context, with_table, fill_context, vmm_handle_page_fault, vmm_destroy_context,
}
use box_kernel.Vmm.Created.{Created, only, vmm_create_context-empty}
use box_kernel.Vmm.Succeeds.{vmm_map_pages-succeeds}
use box_kernel.Vmm.Fault.{
  Handled, fault_flags, is_demand, vmm_handle_page_fault-maps, vmm_handle_page_fault-serves,
}
use box_kernel.Vmm.Destroy.{vmm_destroy_context-panics}
use box_kernel.Tests.Memory.{zone, zone-IsValid}

abbrev no_context : Context
no_context = record {
  pml4 = 0;
  pml4_phys = 0;
  mapped_pages = 0;
  kernel_pages = 0;
  user_pages = 0;
  heap_start = 0;
  heap_end = 0;
  stack_top = 0;
}

abbrev no_stats : Stats
no_stats = record {
  total_contexts = 0;
  total_mapped_pages = 0;
  kernel_mapped_pages = 0;
  user_mapped_pages = 0;
  page_tables_allocated = 0;
  page_faults_handled = 0;
  tlb_flushes = 0;
}

abbrev boot : Vmm
boot = record {
  zone = zone;
  memory = λ _ _. 0;
  contexts = λ _. no_context;
  kernel_context = 0;
  current_context = 0;
  vmm_initialized = false;
  stats = no_stats;
  kernel_heap_current = 0xFFFF800000000000;
  vmalloc_list = [];
}

-- the state after the first context is made at address 7
abbrev begun : Vmm
begun = (vmm_create_context boot 7).1

begun_made : (vmm_create_context boot 7).0 ≡ 7
unfolding vmm_create_context vmm_alloc_page_table new_table with_table fill_context pmm_alloc claim
    pmm_find_free_sequence search pmm_get_bit set_bits pmm_set_bit
begun_made = refl

vmm_create_context-empty_example : Created boot 7 (vmm_create_context boot 7)
vmm_create_context-empty_example =
    vmm_create_context-empty boot 7 (omega arith) refl zone-IsValid refl (omega arith)

begun-IsSpace : (root : ℕ) × IsSpace begun 7 (only root)
begun-IsSpace =
    elim (vmm_create_context-empty boot 7 (omega arith) refl zone-IsValid refl (omega arith)) [
      | inl (lost, _) ↦ absurd (omega (arith, begun_made, lost))
      | inr (_, root, h, _) ↦ (root, h)
    ]

writable : IsPageFlags 3
unfolding has_flag vmm_pte_to_flags
writable = record { present = refl; fits = refl }

first_mapping : (vmm_map_page begun 7 0x400000 0x200000 3).0.success ≡ true
unfolding vmm_create_context vmm_alloc_page_table new_table with_table fill_context pmm_alloc claim
    pmm_find_free_sequence search pmm_get_bit set_bits pmm_set_bit vmm_map_page map_entry
    count_mapped vmm_get_or_create_pte vmm_get_or_create_table descend next_table on_table link
    entry_of write_entry has_flag vmm_pte_to_phys vmm_pte_to_flags vmm_make_pte vmm_is_page_aligned
    vmm_flush_tlb_page
first_mapping = refl

vmm_map_page-refines_example :
    MapOutcome begun 7 0x400000 0x200000 3 (vmm_map_page begun 7 0x400000 0x200000 3)
vmm_map_page-refines_example =
    vmm_map_page-refines 0x400000 0x200000 3 begun-IsSpace.1 writable (omega arith)

-- the state after a page is mapped
abbrev once : Vmm
once = (vmm_map_page begun 7 0x400000 0x200000 3).1

once-IsSpace : (places : Places) × IsSpace once 7 places
once-IsSpace =
    let (places, h, _) =
      vmm_map_page-refines 0x400000 0x200000 3 begun-IsSpace.1 writable (omega arith) in
    (places, h)

vmm_unmap_page-refines_example :
    UnmapOutcome once 7 once-IsSpace.0 0x400000 (vmm_unmap_page once 7 0x400000)
vmm_unmap_page-refines_example = vmm_unmap_page-refines 0x400000 once-IsSpace.1

virt_to_phys-vmm_map_page_example :
    (vmm_virt_to_phys once 7 0x400123 ≡ 0x200123) × (vmm_get_page_flags once 7 0x400123 ≡ 3)
virt_to_phys-vmm_map_page_example =
    virt_to_phys-vmm_map_page 0x400000 0x200000 3 begun-IsSpace.1 writable (omega arith)
      first_mapping 0x400123 refl

aligned : vmm_is_page_aligned 0x400000 ≡ true
unfolding vmm_is_page_aligned
aligned = refl

begun_empty : space begun 7 0x400000 ≡ none
begun_empty =
    elim (vmm_create_context-empty boot 7 (omega arith) refl zone-IsValid refl (omega arith)) [
      | inl (lost, _) ↦ absurd (omega (arith, begun_made, lost))
      | inr (_, _, _, empty) ↦ empty 0x400000
    ]

vmm_unmap_page-vmm_map_page_example :
    let r = vmm_unmap_page once 7 0x400000 in
    (r.0 ≡ true) × (space r.1 7 0x400000 ≡ space begun 7 0x400000)
vmm_unmap_page-vmm_map_page_example =
    vmm_unmap_page-vmm_map_page 0x400000 0x200000 3 begun-IsSpace.1 writable (omega arith)
      first_mapping 0x400000 aligned begun_empty

two_pages : IsRange 0x400000 2
two_pages = record { starts = refl; fits = omega arith; within = omega arith }

vmm_map_pages-refines_example :
    Mapping begun 7 0x400000 0x200000 3 2 (vmm_map_pages begun 7 0x400000 0x200000 2 3)
vmm_map_pages-refines_example =
    vmm_map_pages-refines 0x200000 3 begun-IsSpace.1 two_pages writable (omega arith)

begun_nothing : (w : ℕ) → space begun 7 w ≡ none
begun_nothing =
    elim (vmm_create_context-empty boot 7 (omega arith) refl zone-IsValid refl (omega arith)) [
      | inl (lost, _) ↦ absurd (omega (arith, begun_made, lost))
      | inr (_, _, _, empty) ↦ empty
    ]

begun_room : 3 * 2 ≤ pmm_free_pages begun.zone
unfolding vmm_create_context vmm_alloc_page_table new_table with_table fill_context pmm_alloc claim
    pmm_find_free_sequence search pmm_get_bit set_bits pmm_set_bit pmm_free_pages count_free
begun_room = omega arith

vmm_map_pages-succeeds_example : (vmm_map_pages begun 7 0x400000 0x200000 2 3).0.success ≡ true
vmm_map_pages-succeeds_example =
    vmm_map_pages-succeeds 0x200000 3 begun-IsSpace.1 two_pages writable (omega arith) refl
      (λ w _. begun_nothing w) begun_room

vmm_find_free_region-first_example :
    Fit
      (framed_at once 7)
      (vmm_size_to_pages 5000)
      0x500000
      0x400
      (vmm_find_free_region once 7 5000 0x400000 0x500000)
vmm_find_free_region-first_example =
    vmm_find_free_region-first once-IsSpace.1 5000 0x400000 0x500000 (omega arith) (omega arith)
      (omega arith)

heap_place : IsHeapPlace begun.kernel_heap_current
unfolding vmm_create_context vmm_alloc_page_table new_table with_table fill_context pmm_alloc claim
    pmm_find_free_sequence search pmm_get_bit set_bits pmm_set_bit
heap_place = record { aligned = refl; low = omega arith; high = omega arith }

vmm_alloc_pages-maps_example :
    (r : ℕ × Vmm) × (vmm_alloc_pages begun 7 2 3 ≡ some r) × Allocated begun 7 2 3 r
vmm_alloc_pages-maps_example =
    vmm_alloc_pages-maps 2 3 begun-IsSpace.1 (omega arith) (omega arith) writable heap_place

-- the state with that context as the kernel's
abbrev kernel : Vmm
kernel = record begun { kernel_context = 7 }

kernel-IsSpace : IsSpace kernel kernel.kernel_context (only begun-IsSpace.0)
kernel-IsSpace =
    let h = begun-IsSpace.1 in
    record {
      exists = h.exists;
      has_top = h.has_top;
      ready = record {
        zone_valid = h.ready.zone_valid;
        base_aligned = h.ready.base_aligned;
        addressable = h.ready.addressable;
        tree = h.ready.tree;
      };
    }

vmm_handle_page_fault-maps_example :
    (r : Bool × Vmm) × (vmm_handle_page_fault kernel 0x1234 2 ≡ some r)
    × (is_demand 0x1234 2 ≡ false → r.0 ≡ false)
    × Handled kernel 0x1234 (fault_flags 0x1234 2) r
vmm_handle_page_fault-maps_example =
    vmm_handle_page_fault-maps 0x1234 2 kernel-IsSpace (omega arith)

low_demand : is_demand 0x1234 2 ≡ true
unfolding has_flag vmm_page_align_down
low_demand = refl

kernel_room : 4 ≤ pmm_free_pages kernel.zone
kernel_room = omega (arith, begun_room)

kernel_empty : space kernel 7 0x1234 ≡ none
unfolding space
kernel_empty = begun_nothing 0x1234

vmm_handle_page_fault-serves_example :
    (s' : Vmm) × (vmm_handle_page_fault kernel 0x1234 2 ≡ some (true, s'))
vmm_handle_page_fault-serves_example =
    vmm_handle_page_fault-serves 0x1234 2 kernel-IsSpace (omega arith) low_demand kernel_empty
      kernel_room

-- frames for two pages of the kernel heap
two_frames : CanMap begun 7 2 3
unfolding vmm_create_context vmm_alloc_page_table new_table with_table fill_context pmm_alloc claim
    pmm_find_free_sequence search pmm_get_bit set_bits pmm_set_bit pmm_free_pages count_free
    has_flag
two_frames = record {
  frame = 0x105000;
  frames = refl;
  for_kernel = refl;
  heap_room = omega arith;
  unmapped = λ w _. begun_nothing w;
  tables = omega arith;
}

vmm_alloc_pages-kernel_example :
    (s' : Vmm) × (vmm_alloc_pages begun 7 2 3 ≡ some (begun.kernel_heap_current, s'))
vmm_alloc_pages-kernel_example =
    vmm_alloc_pages-kernel 2 3 begun-IsSpace.1 (omega arith) (omega arith) writable heap_place
      two_frames

-- a context whose first entry leads to a table
abbrev with_user : Vmm
with_user = record boot {
  memory = λ _ _. 0x105003;
  contexts = λ _. record no_context { pml4 = 0x104000; pml4_phys = 0x104000 };
}

below_limit : vmm_pte_to_phys 0x105003 < 2 ^ 46
unfolding vmm_pte_to_phys
below_limit = omega arith

entry_present : has_flag 0x105003 1 ≡ true
unfolding has_flag
entry_present = refl

vmm_destroy_context-panics_example : vmm_destroy_context with_user 8 ≡ none
vmm_destroy_context-panics_example =
    vmm_destroy_context-panics with_user 8 0 (omega arith) (omega arith) (omega arith)
      (refl, omega arith) (λ _. below_limit) (omega arith) entry_present
