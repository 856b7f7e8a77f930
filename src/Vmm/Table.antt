-- ===== src/Vmm/Table.antt =====
-- The page tables of vmm.c: the walk from the top table to an entry, with and without the creation
-- of the tables that are missing, and the pages mapped and unmapped through it.
use box_kernel.Base.{
  ℕ, Bool, true, false, not, ◌&&◌, ◌||◌, Option, none, some, List, [], ◌∷◌, ◌==◌, if◌then◌else◌,
  take,
}
use box_kernel.Vmm.{
  Vmm, flag_present, flag_large_page, flags_kernel_rw, has_flag, vmm_pte_to_phys, vmm_make_pte,
  pml4_index, pdpt_index, pd_index, pt_index, write_entry, vmm_alloc_page_table,
}

-- `indices`
abbrev pub indices : ℕ → List ℕ
indices virt_addr =
    pml4_index virt_addr ∷ pdpt_index virt_addr ∷ pd_index virt_addr ∷ pt_index virt_addr ∷ []

-- links a table that was just made into its parent
unfoldable pub link : ℕ → ℕ → Option ℕ × Vmm → Option ℕ × Vmm
link table i (none, s) = (none, s)
link table i (some phys, s) =
    let entry = vmm_make_pte phys flags_kernel_rw in
    (some (vmm_pte_to_phys entry), write_entry s table i entry)

-- One round of the walk: the table that an entry leads to, made when there is none.
unfoldable pub next_table : Vmm → ℕ → ℕ → Option ℕ × Vmm
next_table s table i =
    let entry = s.memory table i in
    if has_flag entry flag_present
    then (some (vmm_pte_to_phys entry), s)
    else link table i (vmm_alloc_page_table s)

-- what the walk does with the table that it has reached
unfoldable pub on_table : (Vmm → ℕ → Option ℕ × Vmm) → Option ℕ × Vmm → Option ℕ × Vmm
on_table go (none, s) = (none, s)
on_table go (some table, s) = go s table

-- the rounds of the walk
unfoldable pub descend : List ℕ → Vmm → ℕ → Option ℕ × Vmm
descend [] s table = (some table, s)
descend (i ∷ path) s table = on_table (λ s' table'. descend path s' table') (next_table s table i)

unfoldable pub vmm_get_or_create_table : Vmm → ℕ → ℕ → ℕ → Option ℕ × Vmm
vmm_get_or_create_table s ctx virt_addr level =
    if (ctx == 0) || ((s.contexts ctx).pml4 == 0)
    then (none, s)
    else descend (take level (indices virt_addr)) s (s.contexts ctx).pml4

-- A pointer to an entry is the table and the index of the entry in it.
unfoldable pub entry_of : ℕ → Option ℕ → Option (ℕ × ℕ)
entry_of i none = none
entry_of i (some table) = some (table, i)

unfoldable pub vmm_get_or_create_pte : Vmm → ℕ → ℕ → Option (ℕ × ℕ) × Vmm
vmm_get_or_create_pte s ctx virt_addr =
    let (table, s') = vmm_get_or_create_table s ctx virt_addr 3 in
    (entry_of (pt_index virt_addr) table, s')

-- the table below an entry, unless the entry is not present or, where that is looked at, maps a
-- large page
unfoldable pub below : Vmm → Bool → ℕ → ℕ → Option ℕ
below s look table i =
    let entry = s.memory table i in
    if not (has_flag entry flag_present)
    then none
    else if look && has_flag entry flag_large_page
    then none
    else some (vmm_pte_to_phys entry)

abbrev pub and_then : {A B : Type 0} → Option A → (A → Option B) → Option B
and_then none f = none
and_then (some a) f = f a

unfoldable pub vmm_get_pte_noalloc : Vmm → ℕ → ℕ → Option (ℕ × ℕ)
vmm_get_pte_noalloc s ctx virt_addr =
    if (ctx == 0) || ((s.contexts ctx).pml4 == 0)
    then none
    else and_then (below s false (s.contexts ctx).pml4 (pml4_index virt_addr)) (λ pdpt.
      and_then (below s true pdpt (pdpt_index virt_addr)) (λ pd.
        and_then (below s true pd (pd_index virt_addr)) (λ pt. some (pt, pt_index virt_addr))))

unfoldable pub vmm_get_pte : Vmm → ℕ → ℕ → Option (ℕ × ℕ)
vmm_get_pte s ctx virt_addr = vmm_get_pte_noalloc s ctx virt_addr

-- the entry behind a pointer that may be NULL, if it is present
unfoldable pub present_entry : Vmm → Option (ℕ × ℕ) → Option ℕ
present_entry s none = none
present_entry s (some (table, i)) =
    let entry = s.memory table i in if has_flag entry flag_present then some entry else none
