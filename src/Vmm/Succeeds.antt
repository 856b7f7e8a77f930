-- ===== src/Vmm/Succeeds.antt =====
-- When `vmm_map_pages` of vmm.c succeeds: with three free pages for each page that it maps.
use box_kernel.Base.{
  ℕ, zero, suc, ◌+◌, ◌*◌, ◌%◌, ◌^◌, ◌≤◌, ◌<◌, ◌≡◌, refl, ◌∙◌, true, false, none, arith, ==_iff, u64,
}
use box_kernel.Pmm.{pmm_free_pages}
use box_kernel.Pmm.Alloc.{in_run}
use box_kernel.Vmm.{Vmm, vmm_page_size, vmm_is_page_aligned}
use box_kernel.Vmm.Entry.{page_of, aligned_iff}
use box_kernel.Vmm.Page.{vmm_map_page, on_mapped, map_from, vmm_map_pages}
use box_kernel.Vmm.Tree.{Places}
use box_kernel.Vmm.Space.{space, IsSpace}
use box_kernel.Vmm.Map.{IsPageFlags, vmm_map_page-refines}
use box_kernel.Vmm.Range.{IsRange, page_addr-page_of, page_addr_aligned}
use box_kernel.Vmm.Fill.{Filled, fill_one}
use box_kernel.Vmm.Room.{vmm_map_page-succeeds}

module _ (ctx : ℕ) {addr count : ℕ} (range : IsRange addr count) (frame flags : ℕ)
    (ok : IsPageFlags flags) (frames : frame + count * 4096 ≤ 2 ^ 52) (starts : frame % 4096 ≡ 0)
    (s : Vmm)
    (unmapped : (w : ℕ)
      → in_run (page_of addr) count (page_of w) ≡ true
      → space s ctx w ≡ none) where
  map_from_succeeds :
      (n i : ℕ) {places : Places} (s1 : Vmm)
      → IsSpace s1 ctx places
      → i + n ≡ count
      → Filled ctx range frame flags ok frames s i s1
      → 3 * n ≤ pmm_free_pages s1.zone
      → (map_from ctx addr frame flags i n s1).0.success ≡ true
  unfolding map_from on_mapped
  map_from_succeeds zero i s1 h all filled room = refl
  map_from_succeeds (suc n) i s1 h all filled room =
      let inside : i < count = omega (arith, all) in
      let a = u64 (addr + i * vmm_page_size) in
      let f = u64 (frame + i * vmm_page_size) in
      let r = vmm_map_page s1 ctx a f flags in
      let at = page_addr-page_of range i inside in
      let before : in_run (page_of addr) i (page_of a) ≡ false = ground (arith, at) in
      let within : in_run (page_of addr) count (page_of a) ≡ true = ground (arith, at, inside) in
      let frame_aligned : vmm_is_page_aligned f ≡ true =
        aligned_iff f ∙ (==_iff (f % 4096) 0).1 (omega (arith, starts, frames, inside)) in
      let unmapped_here : space s1 ctx a ≡ none = filled a ∙ rw before (unmapped a within) in
      let (done, left) =
        vmm_map_page-succeeds a f flags h (page_addr_aligned range i inside) frame_aligned
          unmapped_here (3 * n) (omega (arith, room)) in
      let (places', h', mapped_to) =
        vmm_map_page-refines a f flags h ok (omega (arith, frames, inside)) in
      rw done (
        map_from_succeeds n (i + 1) r.1 h' (omega (arith, all))
          (fill_one ctx range frame flags ok frames s s1 i r inside filled mapped_to done) left)

-- Mapping the pages of a range at which nothing is mapped, to page-aligned frames below 2^52 with
-- the flags of a present page, in a context whose tables are a tree, succeeds when the zone has
-- three free pages for each of them.
pub vmm_map_pages-succeeds :
    {s : Vmm} {ctx : ℕ} {places : Places} {addr count : ℕ} (frame flags : ℕ)
    → IsSpace s ctx places
    → IsRange addr count
    → IsPageFlags flags
    → frame + count * 4096 ≤ 2 ^ 52
    → frame % 4096 ≡ 0
    → ((w : ℕ) → in_run (page_of addr) count (page_of w) ≡ true → space s ctx w ≡ none)
    → 3 * count ≤ pmm_free_pages s.zone
    → (vmm_map_pages s ctx addr frame count flags).0.success ≡ true
unfolding vmm_map_pages
vmm_map_pages-succeeds {s} {ctx} {places} {addr} {count} frame flags h range ok frames starts
      unmapped room =
    map_from_succeeds ctx range frame flags ok frames starts s unmapped count 0 s h (omega arith)
      (λ w. ground arith) room
