-- ===== src/Vmm/RoundTrip.antt =====
-- `vmm_map_page` of vmm.c with the calls that read or undo it.
use box_kernel.Base.{
  ℕ, ◌+◌, ◌%◌, ◌^◌, ◌<◌, ◌≡◌, refl, sym, ◌∙◌, ap, inl, inr, Bool, true, ◌&&◌, Option, none, some,
  ◌==◌, if◌then◌else◌, arith, Bool-cases, ==_iff, u64, bit_and, bit_and-mask,
}
use box_kernel.Vmm.{Vmm, vmm_is_page_aligned, page_offset_mask}
use box_kernel.Vmm.Entry.{page_of}
use box_kernel.Vmm.Page.{vmm_map_page, vmm_unmap_page, vmm_virt_to_phys, vmm_get_page_flags}
use box_kernel.Vmm.Tree.{Places}
use box_kernel.Vmm.Space.{space, IsSpace, virt_to_phys-space, get_page_flags-space}
use box_kernel.Vmm.Map.{IsPageFlags, vmm_map_page-refines}
use box_kernel.Vmm.Unmap.{is_some, vmm_unmap_page-refines}
use box_kernel.Vmm.Range.{space_of_page}

module _ {s : Vmm} {ctx : ℕ} {places : Places} (addr frame flags : ℕ) (h : IsSpace s ctx places)
    (ok : IsPageFlags flags) (small : frame < 2 ^ 52)
    (success : (vmm_map_page s ctx addr frame flags).0.success ≡ true) where
  abbrev after : Vmm
  after = (vmm_map_page s ctx addr frame flags).1

  space_after :
      (w : ℕ)
      → space after ctx w
        ≡ (if page_of addr == page_of w then some (frame, flags) else space s ctx w)
  space_after w =
      (vmm_map_page-refines addr frame flags h ok small).2 w
      ∙ ap (λ b. if b && (page_of addr == page_of w) then some (frame, flags) else space s ctx w)
          success

  -- After a page was mapped with success, in a context whose tables are a tree, to a frame below
  -- 2^52 with the flags of a present page, every address of the page translates to the same offset
  -- in the frame and has the flags.
  pub virt_to_phys-vmm_map_page :
      (w : ℕ)
      → page_of addr ≡ page_of w
      → (vmm_virt_to_phys after ctx w ≡ frame + w % 4096) × (vmm_get_page_flags after ctx w ≡ flags)
  virt_to_phys-vmm_map_page w same =
      let (_, h', _) = vmm_map_page-refines addr frame flags h ok small in
      let here : space after ctx w ≡ some (frame, flags) =
        space_after w
        ∙ ap (λ (b : Bool). if b then some (frame, flags) else space s ctx w)
            ((==_iff (page_of addr) (page_of w)).1 same) in
      (
        virt_to_phys-space h' w
            ∙ ap
                (λ (o : Option (ℕ × ℕ)). elim o [
                  | none ↦ 0
                  | some (f, g) ↦ u64 (f + bit_and w page_offset_mask)
                ])
                here
            ∙ omega (arith, bit_and-mask 12 w),
        get_page_flags-space h' w
            ∙ ap (λ (o : Option (ℕ × ℕ)). elim o [ none ↦ 0 | some (f, g) ↦ g ]) here,
      )

  -- Unmapping a page-aligned address that was mapped with success just before, in a context whose
  -- tables are a tree and where nothing was mapped at that page, to a frame below 2^52 with the
  -- flags of a present page, succeeds and leaves the address space as it was.
  pub vmm_unmap_page-vmm_map_page :
      (w : ℕ)
      → vmm_is_page_aligned addr ≡ true
      → space s ctx addr ≡ none
      → let r = vmm_unmap_page after ctx addr in (r.0 ≡ true) × (space r.1 ctx w ≡ space s ctx w)
  vmm_unmap_page-vmm_map_page w aligned free =
      let (_, h', _) = vmm_map_page-refines addr frame flags h ok small in
      let (found, _, emptied) = vmm_unmap_page-refines addr h' in
      let here : space after ctx addr ≡ some (frame, flags) =
        space_after addr
        ∙ ap (λ (b : Bool). if b then some (frame, flags) else space s ctx addr)
            ((==_iff (page_of addr) (page_of addr)).1 refl) in
      let done : (vmm_unmap_page after ctx addr).0 ≡ true =
        found ∙ ap (λ b. b && is_some (space after ctx addr)) aligned ∙ ap is_some here in
      (
        done,
        emptied w ∙ elim (Bool-cases (page_of addr == page_of w)) [
          | inl same ↦
              rw (done, same)
                (sym free ∙ space_of_page s ctx addr w ((==_iff (page_of addr) (page_of w)).0 same))
          | inr other ↦ rw (done, other) (space_after w ∙ rw other refl)
        ],
      )
