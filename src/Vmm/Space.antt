-- ===== src/Vmm/Space.antt =====
-- An address space as what it is for: a map from virtual pages to frames and flags. vmm.c looks it
-- up in `vmm_virt_to_phys` and `vmm_get_page_flags`.
use box_kernel.Base.{
  ℕ, ◌+◌, ◌<◌, ◌≡◌, ◌≢◌, refl, ◌∙◌, ap, inl, inr, Bool, true, false, ◌&&◌, ◌||◌, Option, none, some,
  List, [], ◌∷◌, bit_and, ◌==◌, if◌then◌else◌, arith, Bool-cases, ne→==, u64,
}
use box_kernel.Vmm.{
  Vmm, flag_present, has_flag, vmm_pte_to_phys, vmm_pte_to_flags, page_offset_mask, pml4_index,
  pdpt_index, pd_index, pt_index,
}
use box_kernel.Vmm.Entry.{number}
use box_kernel.Vmm.Table.{
  below, and_then, entry_of, present_entry, vmm_get_pte, vmm_get_pte_noalloc,
}
use box_kernel.Vmm.Page.{vmm_virt_to_phys, vmm_get_page_flags}
use box_kernel.Vmm.Tree.{Places, is_present, child, IsTree, follow, read}
use box_kernel.Vmm.Walk.{Ready}

-- the frame and the flags of an entry, if it is present
unfoldable pub view : ℕ → Option (ℕ × ℕ)
view entry =
    if has_flag entry flag_present
    then some (vmm_pte_to_phys entry, vmm_pte_to_flags entry)
    else none

abbrev pub way_down : ℕ → List ℕ
way_down addr = pml4_index addr ∷ pdpt_index addr ∷ pd_index addr ∷ []

-- the entry of an address at the lowest level, 0 when its table does not exist
abbrev pub entry_at : Vmm → ℕ → ℕ → ℕ
entry_at s root addr = read s.memory (follow s.memory root (way_down addr)) (pt_index addr)

-- what is mapped at an address
unfoldable pub space : Vmm → ℕ → ℕ → Option (ℕ × ℕ)
space s ctx addr = view (entry_at s (s.contexts ctx).pml4 addr)

-- A context whose tables are a tree.
pub record IsSpace (s : Vmm) (ctx : ℕ) (places : Places) : Type 0 where
  pub exists : ctx ≢ 0
  pub has_top : (s.contexts ctx).pml4 ≢ 0
  pub ready : Ready s (s.contexts ctx).pml4 places

-- the guard of the lookups passes
pub guard_passes :
    {s : Vmm} {ctx : ℕ} {places : Places}
    → IsSpace s ctx places
    → ((ctx == 0) || ((s.contexts ctx).pml4 == 0)) ≡ false
guard_passes {s} {ctx} h =
    let a = h.exists in
    let b = h.has_top in rw (ne→== ctx 0 a, ne→== (s.contexts ctx).pml4 0 b) refl

module _ (s : Vmm) {root : ℕ} {places : Places} (tree : IsTree s.zone s.memory root places) where
  -- No entry above the lowest level maps a large page.
  below_lem :
      (look : Bool) (t d n i : ℕ)
      → places t ≡ some (d, n)
      → d < 3
      → below s look t i ≡ (if is_present s.memory t i then some (child s.memory t i) else none)
  unfolding below
  below_lem look t d n i place high = elim (Bool-cases (is_present s.memory t i)) [
    | inl here ↦
        let small = (tree.below t d n i place high here).1 in rw (here, small) (lookless look)
    | inr gone ↦ rw gone refl
  ]
    where
      lookless : (look : Bool) {a : Option ℕ} → (if look && false then none else a) ≡ a
      lookless true = refl
      lookless false = refl

  -- a step down, and the rest of the way
  step_lem :
      (look : Bool) (t d n i : ℕ) (path : List ℕ) (j : ℕ) (rest : ℕ → Option (ℕ × ℕ))
      → places t ≡ some (d, n)
      → d < 3
      → ((u : ℕ)
          → places u ≡ some (d + 1, number n i)
          → rest u ≡ entry_of j (follow s.memory u path))
      → and_then (below s look t i) rest ≡ entry_of j (follow s.memory t (i ∷ path))
  unfolding follow entry_of
  step_lem look t d n i path j rest place high continued =
      ap (λ o. and_then o rest) (below_lem look t d n i place high)
      ∙ elim (Bool-cases (is_present s.memory t i)) [
        | inl here ↦ rw here (continued (child s.memory t i) (tree.below t d n i place high here).0)
        | inr gone ↦ rw gone refl
      ]

module _ {s : Vmm} {ctx : ℕ} {places : Places} (h : IsSpace s ctx places) (addr : ℕ) where
  abbrev root : ℕ
  root = (s.contexts ctx).pml4

  -- The lookup without allocation ends where the way down leads.
  pub vmm_get_pte_lem :
      vmm_get_pte s ctx addr ≡ entry_of (pt_index addr) (follow s.memory root (way_down addr))
  unfolding vmm_get_pte vmm_get_pte_noalloc follow entry_of
  vmm_get_pte_lem = rw (guard_passes h) (
      step_lem s h.ready.tree false root 0 0 (pml4_index addr)
        (pdpt_index addr ∷ pd_index addr ∷ []) (pt_index addr) _ h.ready.tree.top (omega arith)
        (λ pdpt at.
          step_lem s h.ready.tree true pdpt 1 _ (pdpt_index addr) (pd_index addr ∷ [])
            (pt_index addr) _ at (omega arith)
            (λ pd at'.
              step_lem s h.ready.tree true pd 2 _ (pd_index addr) [] (pt_index addr) _ at'
                (omega arith) (λ pt at''. refl))))

  pub present_entry_lem :
      present_entry s (vmm_get_pte s ctx addr)
      ≡ (if has_flag (entry_at s root addr) flag_present then some (entry_at s root addr) else none)
  unfolding present_entry entry_of has_flag
  present_entry_lem =
      ap (present_entry s) vmm_get_pte_lem ∙ at_end (follow s.memory root (way_down addr))
    where
      at_end :
          (end : Option ℕ)
          → let e = read s.memory end (pt_index addr) in
            present_entry s (entry_of (pt_index addr) end)
            ≡ (if has_flag e flag_present then some e else none)
      at_end none = refl
      at_end (some t) = refl

  -- Both lookups of an address are of what is mapped there: 0 when nothing is, else the frame with
  -- the offset in the page, and the flags.
  pub virt_to_phys-space : vmm_virt_to_phys s ctx addr ≡ elim (space s ctx addr) [
    | none ↦ 0
    | some (frame, flags) ↦ u64 (frame + bit_and addr page_offset_mask)
  ]
  unfolding vmm_virt_to_phys space view
  virt_to_phys-space =
      rw (ne→== ctx 0 h.exists, present_entry_lem)
        (elim (Bool-cases (has_flag (entry_at s root addr) flag_present)) [
          | inl here ↦ rw here refl
          | inr gone ↦ rw gone refl
        ])

  pub get_page_flags-space :
      vmm_get_page_flags s ctx addr
      ≡ elim (space s ctx addr) [ none ↦ 0 | some (frame, flags) ↦ flags ]
  unfolding vmm_get_page_flags space view
  get_page_flags-space =
      rw (ne→== ctx 0 h.exists, present_entry_lem)
        (elim (Bool-cases (has_flag (entry_at s root addr) flag_present)) [
          | inl here ↦ rw here refl
          | inr gone ↦ rw gone refl
        ])
