-- ===== src/Vmm/Page.antt =====
-- Pages of vmm.c: mapped, unmapped, protected and looked up, one at a time or in a row.
use box_kernel.Base.{
  ℕ, zero, suc, ◌+◌, ◌*◌, Bool, true, false, not, ◌&&◌, ◌||◌, Option, none, some, bit_and, bit_or,
  ◌==◌, if◌then◌else◌, u64,
}
use box_kernel.Vmm.{
  Vmm, MapResult, MapError, vmm_page_size, flag_present, flag_user, has_flag, vmm_is_page_aligned,
  vmm_page_align_down, vmm_size_to_pages, vmm_pte_to_phys, vmm_pte_to_flags, vmm_make_pte,
  write_entry, page_offset_mask, set_stats, set_context, lessen, vmm_flush_tlb_page,
}
use box_kernel.Vmm.Table.{vmm_get_or_create_pte, vmm_get_pte, present_entry}

-- the result as it is before anything is known, with an error
abbrev pub failed : MapError → MapResult
failed e = record { success = false; virt_addr = 0; phys_addr = 0; pages_mapped = 0; error_msg = e }

abbrev pub mapped : ℕ → ℕ → MapResult
mapped v p = record {
  success = true;
  virt_addr = v;
  phys_addr = p;
  pages_mapped = 1;
  error_msg = MapError.no_error;
}

unfoldable pub count_mapped : Vmm → ℕ → Bool → Vmm
count_mapped s ctx user =
    let c = s.contexts ctx in
    let g = s.stats in
    if user
    then set_stats
        (set_context s ctx (record c {
          mapped_pages = u64 (c.mapped_pages + 1);
          user_pages = u64 (c.user_pages + 1);
        }))
        (record g {
          user_mapped_pages = u64 (g.user_mapped_pages + 1);
          total_mapped_pages = u64 (g.total_mapped_pages + 1);
        })
    else set_stats
        (set_context s ctx (record c {
          mapped_pages = u64 (c.mapped_pages + 1);
          kernel_pages = u64 (c.kernel_pages + 1);
        }))
        (record g {
          kernel_mapped_pages = u64 (g.kernel_mapped_pages + 1);
          total_mapped_pages = u64 (g.total_mapped_pages + 1);
        })

-- what is done with the pointer to the entry
unfoldable pub map_entry : ℕ → ℕ → ℕ → ℕ → Option (ℕ × ℕ) × Vmm → MapResult × Vmm
map_entry ctx virt_addr phys_addr flags (none, s) = (failed MapError.no_entry, s)
map_entry ctx virt_addr phys_addr flags (some (table, i), s) =
    let entry = s.memory table i in
    if has_flag entry flag_present
    then (
      if (vmm_pte_to_phys entry == phys_addr) && (vmm_pte_to_flags entry == flags)
          then mapped virt_addr phys_addr
          else failed MapError.already_mapped,
      s,
    )
    else (
      mapped virt_addr phys_addr,
      vmm_flush_tlb_page (
          count_mapped (write_entry s table i (vmm_make_pte phys_addr flags)) ctx
            (has_flag flags flag_user)),
    )

unfoldable pub vmm_map_page : Vmm → ℕ → ℕ → ℕ → ℕ → MapResult × Vmm
vmm_map_page s ctx virt_addr phys_addr flags =
    if ctx == 0
    then (failed MapError.invalid_context, s)
    else if not (vmm_is_page_aligned virt_addr) || not (vmm_is_page_aligned phys_addr)
    then (failed MapError.not_aligned, s)
    else map_entry ctx virt_addr phys_addr flags (vmm_get_or_create_pte s ctx virt_addr)

unfoldable pub count_unmapped : Vmm → ℕ → Bool → Vmm
count_unmapped s ctx user =
    let c = s.contexts ctx in
    let g = s.stats in
    if user
    then set_stats
        (set_context s ctx
          (record c { mapped_pages = lessen c.mapped_pages; user_pages = lessen c.user_pages }))
        (record g {
          user_mapped_pages = lessen g.user_mapped_pages;
          total_mapped_pages = lessen g.total_mapped_pages;
        })
    else set_stats
        (set_context s ctx
          (record c { mapped_pages = lessen c.mapped_pages; kernel_pages = lessen c.kernel_pages }))
        (record g {
          kernel_mapped_pages = lessen g.kernel_mapped_pages;
          total_mapped_pages = lessen g.total_mapped_pages;
        })

-- what is done with the pointer to the entry
unfoldable pub unmap_entry : Vmm → ℕ → Option (ℕ × ℕ) → Bool × Vmm
unmap_entry s ctx none = (false, s)
unmap_entry s ctx (some (table, i)) =
    let entry = s.memory table i in
    if not (has_flag entry flag_present) then (false, s) else (
      true,
      vmm_flush_tlb_page (
          write_entry (count_unmapped s ctx (has_flag (vmm_pte_to_flags entry) flag_user)) table i
            0),
    )

unfoldable pub vmm_unmap_page : Vmm → ℕ → ℕ → Bool × Vmm
vmm_unmap_page s ctx virt_addr =
    if (ctx == 0) || not (vmm_is_page_aligned virt_addr)
    then (false, s)
    else unmap_entry s ctx (vmm_get_pte s ctx virt_addr)

-- the loop that unmaps the `n` pages from the i-th on, and whether all of them were mapped
unfoldable pub unmap_from : Vmm → ℕ → ℕ → ℕ → ℕ → Bool × Vmm
unmap_from s ctx virt_addr i zero = (true, s)
unmap_from s ctx virt_addr i (suc n) =
    let (done, s') = vmm_unmap_page s ctx (u64 (virt_addr + i * vmm_page_size)) in
    let (rest, s'') = unmap_from s' ctx virt_addr (i + 1) n in (done && rest, s'')

unfoldable pub vmm_unmap_pages : Vmm → ℕ → ℕ → ℕ → Bool × Vmm
vmm_unmap_pages s ctx virt_addr page_count = unmap_from s ctx virt_addr 0 page_count

-- the result of the loop that maps pages, of which `i` were mapped
abbrev pub mapped_pages : Bool → ℕ → ℕ → ℕ → MapError → MapResult
mapped_pages done virt_addr phys_addr i e = record {
  success = done;
  virt_addr = virt_addr;
  phys_addr = phys_addr;
  pages_mapped = i;
  error_msg = e;
}

-- One round of the loop that maps pages: the first page that cannot be mapped ends it, and the `i`
-- pages before it are unmapped.
unfoldable pub on_mapped :
    ℕ → ℕ → ℕ → ℕ → (Vmm → MapResult × Vmm) → MapResult × Vmm → MapResult × Vmm
on_mapped ctx virt_addr phys_addr i go (r, s) =
    let rest = go s in
    if r.success
    then rest
    else (mapped_pages false virt_addr phys_addr i r.error_msg, (unmap_from s ctx virt_addr 0 i).1)

-- the loop over the `n` pages from the i-th on
unfoldable pub map_from : ℕ → ℕ → ℕ → ℕ → ℕ → ℕ → Vmm → MapResult × Vmm
map_from ctx virt_addr phys_addr flags i zero s =
    (mapped_pages true virt_addr phys_addr i MapError.no_error, s)
map_from ctx virt_addr phys_addr flags i (suc n) s =
    on_mapped ctx virt_addr phys_addr i (λ s'. map_from ctx virt_addr phys_addr flags (i + 1) n s')
      (vmm_map_page s ctx (u64 (virt_addr + i * vmm_page_size))
        (u64 (phys_addr + i * vmm_page_size)) flags)

unfoldable pub vmm_map_pages : Vmm → ℕ → ℕ → ℕ → ℕ → ℕ → MapResult × Vmm
vmm_map_pages s ctx virt_addr phys_addr page_count flags =
    map_from ctx virt_addr phys_addr flags 0 page_count s

unfoldable pub vmm_virt_to_phys : Vmm → ℕ → ℕ → ℕ
vmm_virt_to_phys s ctx virt_addr =
    if ctx == 0 then 0 else elim (present_entry s (vmm_get_pte s ctx virt_addr)) [
      | none ↦ 0
      | some entry ↦ u64 (vmm_pte_to_phys entry + bit_and virt_addr page_offset_mask)
    ]

unfoldable pub vmm_is_mapped : Vmm → ℕ → ℕ → Bool
vmm_is_mapped s ctx virt_addr = not (vmm_virt_to_phys s ctx virt_addr == 0)

unfoldable pub vmm_get_page_flags : Vmm → ℕ → ℕ → ℕ
vmm_get_page_flags s ctx virt_addr =
    if ctx == 0 then 0 else elim (present_entry s (vmm_get_pte s ctx virt_addr)) [
      | none ↦ 0
      | some entry ↦ vmm_pte_to_flags entry
    ]

-- the flags with which a page is protected
unfoldable pub flags_to_set : ℕ → ℕ
flags_to_set new_flags =
    let flags = vmm_pte_to_flags new_flags in
    if has_flag flags flag_present then flags else bit_or flags flag_present

-- One round of the loop of `vmm_protect`; `none` is a page that is not mapped.
unfoldable pub protect_entry : Vmm → ℕ → Option (ℕ × ℕ) → Option Vmm
protect_entry s new_flags none = none
protect_entry s new_flags (some (table, i)) =
    let entry = s.memory table i in
    if not (has_flag entry flag_present)
    then none
    else some (
        vmm_flush_tlb_page
          (write_entry s table i (vmm_make_pte (vmm_pte_to_phys entry) (flags_to_set new_flags))))

-- what the loop does after a round: it ends at a page that is not mapped
unfoldable pub on_protected : Vmm → (Vmm → Bool × Vmm) → Option Vmm → Bool × Vmm
on_protected s go none = (false, s)
on_protected s go (some s') = go s'

unfoldable pub protect_from : ℕ → ℕ → ℕ → ℕ → Vmm → Bool × Vmm
protect_from ctx new_flags current_addr zero s = (true, s)
protect_from ctx new_flags current_addr (suc n) s =
    on_protected s (λ s'. protect_from ctx new_flags (u64 (current_addr + vmm_page_size)) n s')
      (protect_entry s new_flags (vmm_get_pte s ctx current_addr))

unfoldable pub vmm_protect : Vmm → ℕ → ℕ → ℕ → ℕ → Bool × Vmm
vmm_protect s ctx virt_addr size new_flags =
    if (ctx == 0) || (size == 0)
    then (false, s)
    else protect_from ctx new_flags (vmm_page_align_down virt_addr) (vmm_size_to_pages size) s
