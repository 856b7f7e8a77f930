-- ===== src/Tests/Memory.antt =====
-- Runs of the physical memory manager on a zone of 16 pages.
use box_kernel.Base.{◌+◌, ◌*◌, ◌≤◌, ◌≡◌, ◌⊎◌, refl, true, false, none, some, List, [], ◌∷◌, arith}
use box_kernel.Pmm.{
  Zone, pmm_page_size, pmm_get_bit, pmm_set_bit, set_bits, search, pmm_find_free_sequence, claim,
  pmm_alloc, any_free, pmm_free,
}
use box_kernel.Pmm.Search.{all_free}
use box_kernel.Pmm.Alloc.{IsValid, pmm_alloc-disjoint}
use box_kernel.Pmm.Free.{pmm_free-pmm_alloc}
use box_kernel.Pmm.Init.{E820Entry, find_mem_end, start_zone, pmm_init}
use box_kernel.Pmm.Init.Pages.{NoPlace, Started, pmm_init_lem}

abbrev pub zone : Zone
zone = record { base = 0x100000; pages = 16; bitmap = λ _. 0; last_free = 4; initialized = true }

abbrev busy : Zone
busy = record zone { bitmap = λ _. 255 }

pub zone-IsValid : IsValid zone
zone-IsValid = record {
  ready = refl;
  above_null = omega arith;
  in_space = omega arith;
  search_start = omega arith;
  bytes = λ i. omega arith;
}

busy-IsValid : IsValid busy
busy-IsValid = record {
  ready = refl;
  above_null = omega arith;
  in_space = omega arith;
  search_start = omega arith;
  bytes = λ i. omega arith;
}

first_allocation : (pmm_alloc zone 3).0 ≡ some (0x100000 + 4 * 4096)
unfolding pmm_alloc claim pmm_find_free_sequence search pmm_get_bit
first_allocation = refl

all_free_at_front : all_free zone 0 4 ≡ true
unfolding all_free pmm_get_bit
all_free_at_front = refl

second_allocation : (pmm_alloc (pmm_alloc zone 3).1 2).0 ≡ some 0x107000
unfolding pmm_alloc claim pmm_find_free_sequence search pmm_get_bit set_bits pmm_set_bit
second_allocation = refl

pmm_alloc-disjoint_example :
    (0x104000 + 3 * pmm_page_size ≤ 0x107000) ⊎ (0x107000 + 2 * pmm_page_size ≤ 0x104000)
pmm_alloc-disjoint_example =
    pmm_alloc-disjoint 3 2 0x104000 0x107000 zone-IsValid (omega arith) (omega arith)
      first_allocation second_allocation

run_in_use : any_free busy 2 3 ≡ false
unfolding any_free pmm_get_bit
run_in_use = refl

page_free : pmm_get_bit zone 2 ≡ false
unfolding pmm_get_bit
page_free = refl

pmm_free-pmm_alloc_example :
    (z' : Zone) × (pmm_free (pmm_alloc zone 3).1 0x104000 3 ≡ some z')
    × (pmm_get_bit z' 5 ≡ pmm_get_bit zone 5)
    × IsValid z'
pmm_free-pmm_alloc_example =
    pmm_free-pmm_alloc 3 0x104000 5 zone-IsValid (omega arith) first_allocation

-- before the start; 2 MB of memory, with the kernel in the 64 KB behind the first megabyte
abbrev unused : Zone
unused = record zone { pages = 0; last_free = 0; initialized = false }

abbrev memory_map : List E820Entry
memory_map = record { base = 0; length = 0x200000; type = 1; acpi = 0 } ∷ []

abbrev started : Zone
started = start_zone 0x100000 0x110000 unused memory_map 256 0x110000

starts : pmm_init 0x100000 0x110000 unused memory_map ≡ some started
unfolding pmm_init find_mem_end
starts = refl

pmm_init_lem_example :
    ((pmm_init 0x100000 0x110000 unused memory_map ≡ none) × NoPlace 0x100000 0x110000 memory_map)
    ⊎ ((z' : Zone) × (pmm_init 0x100000 0x110000 unused memory_map ≡ some z')
        × Started 0x100000 0x110000 memory_map z')
pmm_init_lem_example =
    pmm_init_lem 0x100000 0x110000 (omega arith) (omega arith) (omega arith) unused memory_map refl
      refl (λ i. omega arith)
