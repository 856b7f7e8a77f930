-- ===== src/Vmm.antt =====
-- The virtual memory manager: src/kernel/core/memory/vmm/vmm.c and vmm.h. It keeps trees of page
-- tables, four levels deep, whose nodes come from the physical memory manager, and maps pages of
-- 4096 bytes through them. Before `vmm_init` the kernel reaches the table at a physical address
-- under that same address, and afterwards under `vmm_phys_to_virt` of it: both name the same
-- memory, which is a function of the physical address and the index of the entry. A pointer to a
-- table is its physical address, one to a context the context's place; 0 is NULL. A lock is held
-- for the whole of what a call does under it.
pub mod Entry
pub mod Table
pub mod Page
pub mod Tree
pub mod Grow
pub mod Walk
pub mod Space
pub mod Rewrite
pub mod Map
pub mod Unmap
pub mod Range
pub mod Fill
pub mod RoundTrip
pub mod Region
pub mod Contexts
pub mod Zones
pub mod Fault
pub mod Created
pub mod Destroy
pub mod Room
pub mod Succeeds
use box_kernel.Base.{
  ℕ, zero, suc, ◌+◌, ◌-◌, ◌*◌, ◌/◌, ◌%◌, ◌^◌, Bool, true, false, not, ◌&&◌, ◌||◌, Option, none,
  some, List, [], ◌∷◌, bit_and, bit_or, ltb, leb, ◌==◌, if◌then◌else◌, u64, sub64, update,
}
use box_kernel.Pmm.{Zone, pmm_alloc, pmm_free}

abbrev pub vmm_page_size : ℕ
vmm_page_size = 4096

abbrev pub page_offset_mask : ℕ
page_offset_mask = 0xFFF

abbrev pub page_mask : ℕ
page_mask = 0xFFFFFFFFFFFFF000

abbrev pub pte_addr_mask : ℕ
pte_addr_mask = 0x000FFFFFFFFFF000

abbrev pub pte_flags_mask : ℕ
pte_flags_mask = 0x8000000000000FFF

abbrev pub flag_present : ℕ
flag_present = 1

abbrev pub flag_user : ℕ
flag_user = 4

abbrev pub flag_large_page : ℕ
flag_large_page = 128

-- VMM_FLAGS_KERNEL_RW, present and writable
abbrev pub flags_kernel_rw : ℕ
flags_kernel_rw = 3

abbrev pub phys_map_base : ℕ
phys_map_base = 0xFFFF888000000000

abbrev pub phys_map_size : ℕ
phys_map_size = 64 * 2 ^ 30

abbrev pub kernel_heap_base : ℕ
kernel_heap_base = 0xFFFF800000000000

abbrev pub kernel_heap_size : ℕ
kernel_heap_size = 2 ^ 30

abbrev pub user_base : ℕ
user_base = 0x400000

abbrev pub user_stack_top : ℕ
user_stack_top = 0x7FFFFFFFE000

abbrev pub user_heap_base : ℕ
user_heap_base = 0x1000000

-- whether a flag is set
unfoldable pub has_flag : ℕ → ℕ → Bool
has_flag entry flag = not (bit_and entry flag == 0)

unfoldable pub vmm_is_page_aligned : ℕ → Bool
vmm_is_page_aligned addr = bit_and addr page_offset_mask == 0

unfoldable pub vmm_page_align_down : ℕ → ℕ
vmm_page_align_down addr = bit_and addr page_mask

unfoldable pub vmm_page_align_up : ℕ → ℕ
vmm_page_align_up addr = bit_and (u64 (addr + (vmm_page_size - 1))) page_mask

unfoldable pub vmm_size_to_pages : ℕ → ℕ
vmm_size_to_pages size = u64 (size + (vmm_page_size - 1)) / vmm_page_size

unfoldable pub vmm_pages_to_size : ℕ → ℕ
vmm_pages_to_size pages = u64 (pages * vmm_page_size)

unfoldable pub vmm_pte_to_phys : ℕ → ℕ
vmm_pte_to_phys pte = bit_and pte pte_addr_mask

unfoldable pub vmm_pte_to_flags : ℕ → ℕ
vmm_pte_to_flags pte = bit_and pte pte_flags_mask

unfoldable pub vmm_make_pte : ℕ → ℕ → ℕ
vmm_make_pte phys_addr flags =
    bit_or (bit_and phys_addr pte_addr_mask) (bit_and flags pte_flags_mask)

unfoldable pub vmm_phys_to_virt : ℕ → ℕ
vmm_phys_to_virt phys_addr = u64 (phys_map_base + phys_addr)

unfoldable pub vmm_virt_to_phys_direct : ℕ → ℕ
vmm_virt_to_phys_direct virt =
    if leb phys_map_base virt && ltb virt (phys_map_base + phys_map_size)
    then virt - phys_map_base
    else if ltb virt phys_map_size
    then virt
    else 0

-- VMM_PML4_INDEX, VMM_PDPT_INDEX, VMM_PD_INDEX and VMM_PT_INDEX
abbrev pub pml4_index : ℕ → ℕ
pml4_index addr = bit_and (addr / 2 ^ 39) 0x1FF

abbrev pub pdpt_index : ℕ → ℕ
pdpt_index addr = bit_and (addr / 2 ^ 30) 0x1FF

abbrev pub pd_index : ℕ → ℕ
pd_index addr = bit_and (addr / 2 ^ 21) 0x1FF

abbrev pub pt_index : ℕ → ℕ
pt_index addr = bit_and (addr / 2 ^ 12) 0x1FF

-- `vmm_context_t`; its lock is left out
pub record Context : Type 0 where
  pub pml4 : ℕ
  pub pml4_phys : ℕ
  pub mapped_pages : ℕ
  pub kernel_pages : ℕ
  pub user_pages : ℕ
  pub heap_start : ℕ
  pub heap_end : ℕ
  pub stack_top : ℕ

-- `vmm_stats_t`
pub record Stats : Type 0 where
  pub total_contexts : ℕ
  pub total_mapped_pages : ℕ
  pub kernel_mapped_pages : ℕ
  pub user_mapped_pages : ℕ
  pub page_tables_allocated : ℕ
  pub page_faults_handled : ℕ
  pub tlb_flushes : ℕ

-- one record of `vmalloc_list`
pub record VmallocEntry : Type 0 where
  pub virt_base : ℕ
  pub pages : ℕ

-- The file's global variables, the memory that holds tables and the physical memory manager.
pub record Vmm : Type 0 where
  pub zone : Zone
  pub memory : ℕ → ℕ → ℕ
  pub contexts : ℕ → Context
  pub kernel_context : ℕ
  pub current_context : ℕ
  pub vmm_initialized : Bool
  pub stats : Stats
  pub kernel_heap_current : ℕ
  pub vmalloc_list : List VmallocEntry

-- the texts of `error_msg`
pub data MapError : Type 0 where
  no_error invalid_context not_aligned no_entry already_mapped : MapError

-- `vmm_map_result_t`
pub record MapResult : Type 0 where
  pub success : Bool
  pub virt_addr : ℕ
  pub phys_addr : ℕ
  pub pages_mapped : ℕ
  pub error_msg : MapError

-- writes one entry of a table
unfoldable pub write_entry : Vmm → ℕ → ℕ → ℕ → Vmm
write_entry s table i entry = record s {
  memory = update s.memory table (update (s.memory table) i entry);
}

abbrev pub set_zone : Vmm → Zone → Vmm
set_zone s z = record s { zone = z }

abbrev pub set_stats : Vmm → Stats → Vmm
set_stats s stats = record s { stats = stats }

abbrev pub set_context : Vmm → ℕ → Context → Vmm
set_context s ctx c = record s { contexts = update s.contexts ctx c }

-- `if (n > 0) n--`
abbrev pub lessen : ℕ → ℕ
lessen n = if ltb 0 n then n - 1 else n

unfoldable pub vmm_flush_tlb_page : Vmm → Vmm
vmm_flush_tlb_page s = set_stats s (record s.stats { tlb_flushes = u64 (s.stats.tlb_flushes + 1) })

-- the page that the physical memory manager gave, cleared and counted
unfoldable pub new_table : Vmm → Option ℕ × Zone → Option ℕ × Vmm
new_table s (none, z) = (none, set_zone s z)
new_table s (some phys, z) = (
  some phys,
  record s {
    zone = z;
    memory = update s.memory phys (λ _. 0);
    stats = record s.stats { page_tables_allocated = u64 (s.stats.page_tables_allocated + 1) };
  },
)

-- `none` is 0
unfoldable pub vmm_alloc_page_table : Vmm → Option ℕ × Vmm
vmm_alloc_page_table s = new_table s (pmm_alloc s.zone 1)

-- the zone after a table was freed, which is counted
unfoldable pub less_table : Vmm → Option Zone → Option Vmm
less_table s none = none
less_table s (some z) = some (record s {
  zone = z;
  stats = record s.stats { page_tables_allocated = lessen s.stats.page_tables_allocated };
})

-- `none` is the panic of `pmm_free`
unfoldable pub vmm_free_page_table : Vmm → ℕ → Option Vmm
vmm_free_page_table s phys_addr =
    if phys_addr == 0 then some s else less_table s (pmm_free s.zone phys_addr 1)
