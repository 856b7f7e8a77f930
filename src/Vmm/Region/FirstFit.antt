-- ===== src/Vmm/Region/FirstFit.antt =====
-- `vmm_find_free_region` of vmm.c finds the first place that fits in the address space.
use mathlib.Core.Path.{subst}
use box_kernel.Base.{
  ℕ, ◌+◌, ◌*◌, ◌/◌, ◌^◌, ◌≤◌, ◌<◌, ◌≡◌, ◌≢◌, refl, ◌∙◌, ap, inl, inr, Bool, false, not, bit_and,
  bit_and-mask, Option, none, some, ◌==◌, arith, Bool-cases, u64,
}
use box_kernel.Vmm.{
  Vmm, flag_present, has_flag, vmm_pte_to_phys, page_offset_mask, vmm_page_size, vmm_size_to_pages,
}
use box_kernel.Vmm.Entry.{pte_to_phys_value}
use box_kernel.Vmm.Tree.{Places}
use box_kernel.Vmm.Space.{space, view, entry_at, IsSpace, virt_to_phys-space}
use box_kernel.Vmm.Page.{vmm_is_mapped}
use box_kernel.Vmm.Region.{vmm_find_free_region}
use mathlib.Core.Path.{fun_ext}
use box_kernel.Vmm.Region.Rounds.{Fit, mapped_at, find-Fit}

-- whether a frame other than frame 0 is mapped; that is what `vmm_is_mapped` tells
abbrev pub has_frame : Option (ℕ × ℕ) → Bool
has_frame none = false
has_frame (some (frame, flags)) = not (frame == 0)

-- the same of the virtual page `q` of a context
abbrev pub framed_at : Vmm → ℕ → ℕ → Bool
framed_at s ctx q = has_frame (space s ctx (u64 (q * vmm_page_size)))

mapped_at-space :
    {s : Vmm} {ctx : ℕ} {places : Places}
    → IsSpace s ctx places
    → (q : ℕ) → mapped_at s ctx q ≡ framed_at s ctx q
unfolding vmm_is_mapped space view
mapped_at-space {s} {ctx} h q =
    let addr = u64 (q * vmm_page_size) in
    let entry = entry_at s (s.contexts ctx).pml4 addr in
    let offset : bit_and addr page_offset_mask ≡ 0 = omega (arith, bit_and-mask 12 addr) in
    let same : u64 (vmm_pte_to_phys entry + bit_and addr page_offset_mask) ≡ vmm_pte_to_phys entry =
      omega (arith, offset, pte_to_phys_value entry) in
    ap (λ a. not (a == 0)) (virt_to_phys-space h addr)
    ∙ elim (Bool-cases (has_flag entry flag_present)) [
      | inl here ↦ rw here (ap (λ a. not (a == 0)) same)
      | inr gone ↦ rw gone refl
    ]

-- The search for `size` bytes, not 0, in a context whose tables are a tree, from `start` on below
-- `end`. It returns the address of the first page, at or after `start` rounded up to a page, from
-- which as many pages as are needed, up to `end`, are mapped to no frame but frame 0; it returns 0
-- when every such run has a page that is mapped to another frame. The sizes are such that no
-- address wraps around.
pub vmm_find_free_region-first :
    {s : Vmm} {ctx : ℕ} {places : Places}
    → IsSpace s ctx places
    → (size start end : ℕ) → size ≢ 0
    → start < end
    → end + size + 2 * 4096 ≤ 2 ^ 64
    → Fit
        (framed_at s ctx)
        (vmm_size_to_pages size)
        end
        ((start + 4095) / 4096)
        (vmm_find_free_region s ctx size start end)
vmm_find_free_region-first {s} {ctx} h size start end some_size below room =
    subst
      (λ f.
        Fit f (vmm_size_to_pages size) end ((start + 4095) / 4096)
          (vmm_find_free_region s ctx size start end))
      (fun_ext (mapped_at-space h)) (find-Fit s ctx size start end h.exists some_size below room)
