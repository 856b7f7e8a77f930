-- ===== src/Vmm/Destroy.antt =====
-- `vmm_destroy_context` of vmm.c on a context with tables of its own: `vmm_free_user_space_tables`
-- hands the virtual address of a table to `vmm_free_page_table`, which takes a physical one.
use mathlib.Core.Bool.{false≢true}
use box_kernel.Base.{
  ℕ, zero, suc, ◌+◌, ◌-◌, ◌*◌, ◌/◌, ◌^◌, ◌≤◌, ◌<◌, ◌≡◌, ◌≢◌, refl, sym, ◌∙◌, ap, inl, inr, true,
  false, not, ◌||◌, Option, none, some, ◌==◌, leb, ltb, arith, Bool-cases, ne→==, ==_iff, if-both,
  u64,
}
use box_kernel.Pmm.{Zone, FrameState, pmm_page_size, pmm_free, any_free, set_bits}
use box_kernel.Pmm.Bitmap.{set_bits_same}
use box_kernel.Vmm.{
  Vmm, flag_present, flag_large_page, has_flag, phys_map_base, vmm_pte_to_phys, vmm_phys_to_virt,
  write_entry, less_table, vmm_free_page_table, set_zone,
}
use box_kernel.Vmm.Contexts.{
  for_entries, if_some, free_frames, free_pt_entry, drop_table, free_pd_entry, free_pdpt_entry,
  free_pml4_entry, vmm_free_user_space_tables, vmm_destroy_context,
}

-- an initialized zone that ends below the direct map
abbrev pub Low : Zone → Type 0
Low z = (z.initialized ≡ true) × (z.base + z.pages * pmm_page_size ≤ phys_map_base)

abbrev LowZone : Option Zone → Type 0
LowZone none = Unit
LowZone (some z) = Low z

abbrev LowVmm : Option Vmm → Type 0
LowVmm none = Unit
LowVmm (some s) = Low s.zone

pmm_free-Low : (z : Zone) (addr n : ℕ) → Low z → LowZone (pmm_free z addr n)
unfolding pmm_free
pmm_free-Low z addr n low =
    let first = (addr - z.base) / pmm_page_size in
    let count = u64 (first + n) - first in
    let z' = set_bits z first count FrameState.free in
    let (base, pages, _, ready) = set_bits_same count first z FrameState.free in
    let low' : Low z' = (ready ∙ low.0, omega (arith, base, pages, low.1)) in
    if-both LowZone ((addr == 0) || (n == 0) || not z.initialized) low (
      if-both LowZone (ltb addr z.base || leb (u64 (z.base + z.pages * pmm_page_size)) addr) tt (
        if-both LowZone (any_free z first count) tt
          (if-both Low (ltb first z'.last_free) low' low')))

module _ (s : Vmm) (low : Low s.zone) where
  frames :
      (o : Option Zone) → LowZone o → LowVmm (elim o [ none ↦ none | some z ↦ some (set_zone s z) ])
  frames none l = tt
  frames (some z) l = l

  free_frames-Low : (phys n : ℕ) → LowVmm (free_frames s phys n)
  free_frames-Low phys n = frames (pmm_free s.zone phys n) (pmm_free-Low s.zone phys n low)

  vmm_free_page_table-Low : (phys : ℕ) → LowVmm (vmm_free_page_table s phys)
  unfolding vmm_free_page_table less_table
  vmm_free_page_table-Low phys =
      if-both LowVmm (phys == 0) low
        (counted (pmm_free s.zone phys 1) (pmm_free-Low s.zone phys 1 low))
    where
      counted : (o : Option Zone) → LowZone o → LowVmm (less_table s o)
      counted none l = tt
      counted (some z) l = l

if_some-Low :
    (o : Option Vmm) (go : Vmm → Option Vmm)
    → LowVmm o
    → ((s : Vmm) → Low s.zone → LowVmm (go s))
    → LowVmm (if_some o go)
if_some-Low none go l rest = tt
if_some-Low (some s) go l rest = rest s l

for_entries-Low :
    (body : ℕ → Vmm → Option Vmm)
    → ((i : ℕ) (s : Vmm) → Low s.zone → LowVmm (body i s))
    → (n i : ℕ) (s : Vmm) → Low s.zone
    → LowVmm (for_entries body i n s)
unfolding for_entries
for_entries-Low body each zero i s low = low
for_entries-Low body each (suc n) i s low =
    if_some-Low (body i s) (λ s'. for_entries body (i + 1) n s') (each i s low)
      (λ s' low'. for_entries-Low body each n (i + 1) s' low')

free_pt_entry-Low : (pt i : ℕ) (s : Vmm) → Low s.zone → LowVmm (free_pt_entry pt i s)
unfolding free_pt_entry write_entry
free_pt_entry-Low pt i s low = if-both LowVmm (not (has_flag (s.memory pt i) flag_present)) low (
    if_some-Low _ (λ s'. some (write_entry s' pt i 0)) (free_frames-Low s low _ 1)
      (λ s' low'. low'))

drop_table-Low : (child table i : ℕ) (s : Vmm) → Low s.zone → LowVmm (drop_table child table i s)
unfolding drop_table write_entry
drop_table-Low child table i s low =
    if_some-Low _ (λ s'. some (write_entry s' table i 0)) (vmm_free_page_table-Low s low _)
      (λ s' low'. low')

free_pd_entry-Low : (pd i : ℕ) (s : Vmm) → Low s.zone → LowVmm (free_pd_entry pd i s)
unfolding free_pd_entry
free_pd_entry-Low pd i s low =
    let pt = vmm_pte_to_phys (s.memory pd i) in
    if-both LowVmm (not (has_flag (s.memory pd i) flag_present)) low (
      if-both LowVmm (has_flag (s.memory pd i) flag_large_page) (free_frames-Low s low pt 512) (
        if_some-Low _ (drop_table pt pd i)
          (for_entries-Low (free_pt_entry pt) (free_pt_entry-Low pt) 512 0 s low)
          (drop_table-Low pt pd i)))

free_pdpt_entry-Low : (pdpt i : ℕ) (s : Vmm) → Low s.zone → LowVmm (free_pdpt_entry pdpt i s)
unfolding free_pdpt_entry
free_pdpt_entry-Low pdpt i s low =
    let pd = vmm_pte_to_phys (s.memory pdpt i) in
    if-both LowVmm (not (has_flag (s.memory pdpt i) flag_present)) low (
      if-both LowVmm (has_flag (s.memory pdpt i) flag_large_page) (free_frames-Low s low pd _) (
        if_some-Low _ (drop_table pd pdpt i)
          (for_entries-Low (free_pd_entry pd) (free_pd_entry-Low pd) 512 0 s low)
          (drop_table-Low pd pdpt i)))

-- a table cannot be freed by its address in the direct map
drop_table_panics :
    (child table i : ℕ) (s : Vmm) → Low s.zone → child < 2 ^ 46 → drop_table child table i s ≡ none
unfolding drop_table vmm_free_page_table less_table vmm_phys_to_virt pmm_free
drop_table_panics child table i s low small =
    let virt : u64 (phys_map_base + child) ≡ phys_map_base + child = omega arith in
    let named : (phys_map_base + child == 0) ≡ false = ground arith in
    let top : u64 (s.zone.base + s.zone.pages * pmm_page_size)
        ≡ s.zone.base + s.zone.pages * pmm_page_size =
      omega (arith, low.1) in
    let outside : (ltb (phys_map_base + child) s.zone.base
          || leb (s.zone.base + s.zone.pages * pmm_page_size) (phys_map_base + child))
        ≡ true =
      ground (arith, low.1) in
    rw (virt, named, low.0, top, outside) refl

free_pml4_entry_panics :
    (pml4 i : ℕ) (s : Vmm)
    → Low s.zone
    → vmm_pte_to_phys (s.memory pml4 i) < 2 ^ 46
    → has_flag (s.memory pml4 i) flag_present ≡ true
    → free_pml4_entry pml4 i s ≡ none
unfolding free_pml4_entry
free_pml4_entry_panics pml4 i s low small here =
    let pdpt = vmm_pte_to_phys (s.memory pml4 i) in
    rw here (
      ends (for_entries (free_pdpt_entry pdpt) 0 512 s)
        (for_entries-Low (free_pdpt_entry pdpt) (free_pdpt_entry-Low pdpt) 512 0 s low))
  where
    ends :
        (o : Option Vmm)
        → LowVmm o
        → if_some o (drop_table (vmm_pte_to_phys (s.memory pml4 i)) pml4 i) ≡ none
    ends none l = refl
    ends (some s') l = drop_table_panics (vmm_pte_to_phys (s.memory pml4 i)) pml4 i s' l small

-- the loop up to the first present entry, and the panic there
loop_panics :
    (pml4 : ℕ) (n i p : ℕ) (s : Vmm)
    → Low s.zone
    → ((k : ℕ) → vmm_pte_to_phys (s.memory pml4 k) < 2 ^ 46)
    → has_flag (s.memory pml4 p) flag_present ≡ true
    → i ≤ p
    → p < i + n
    → for_entries (free_pml4_entry pml4) i n s ≡ none
unfolding for_entries free_pml4_entry
loop_panics pml4 zero i p s low small here from below = absurd (omega (arith, from, below))
loop_panics pml4 (suc n) i p s low small here from below =
    elim (Bool-cases (has_flag (s.memory pml4 i) flag_present)) [
      | inl now ↦
          ap (λ o. if_some o (λ s'. for_entries (free_pml4_entry pml4) (i + 1) n s'))
            (free_pml4_entry_panics pml4 i s low (small i) now)
      | inr later ↦ elim (Bool-cases (i == p)) [
        | inl same ↦
            let e : i ≡ p = (==_iff i p).0 same in
            absurd
              (false≢true (sym later ∙ ap (λ k. has_flag (s.memory pml4 k) flag_present) e ∙ here))
        | inr other ↦ rw later (
            loop_panics pml4 n (i + 1) p s low small here (ground (arith, from))
              (omega (arith, below)))
      ]
    ]

-- Destroying a context other than the kernel's, when an entry of the lower half of its top table is
-- present, panics, where the zone of pages is initialized and ends below the direct map, and the
-- entries of the top table hold addresses below 2^46.
pub vmm_destroy_context-panics :
    (s : Vmm) (ctx p : ℕ)
    → ctx ≢ 0
    → ctx ≢ s.kernel_context
    → (s.contexts ctx).pml4 ≢ 0
    → Low s.zone
    → ((k : ℕ) → vmm_pte_to_phys (s.memory (s.contexts ctx).pml4 k) < 2 ^ 46)
    → p < 256
    → has_flag (s.memory (s.contexts ctx).pml4 p) flag_present ≡ true
    → vmm_destroy_context s ctx ≡ none
unfolding vmm_destroy_context vmm_free_user_space_tables
vmm_destroy_context-panics s ctx p exists own top low small half here =
    rw (ne→== ctx 0 exists, ne→== ctx s.kernel_context own, ne→== (s.contexts ctx).pml4 0 top)
      (rw
        (loop_panics (s.contexts ctx).pml4 256 0 p s low small here (omega arith)
          (omega (arith, half)))
        refl)
