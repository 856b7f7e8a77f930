-- ===== src/Vmm/Fill.antt =====
-- What `vmm_map_pages` of vmm.c does to an address space, page after page.
use mathlib.Core.Bool.{false≢true}
use box_kernel.Base.{
  ℕ, zero, suc, ◌+◌, ◌-◌, ◌*◌, ◌^◌, ◌≤◌, ◌<◌, ◌≡◌, refl, ◌∙◌, ap, inl, inr, true, ◌&&◌, Option,
  none, some, ◌==◌, if◌then◌else◌, arith, Bool-cases, ==_iff, u64,
}
use box_kernel.Pmm.Alloc.{in_run}
use box_kernel.Vmm.{Vmm, MapResult, vmm_page_size}
use box_kernel.Vmm.Entry.{page_of}
use box_kernel.Vmm.Page.{vmm_map_page, unmap_from, on_mapped, map_from, vmm_map_pages}
use box_kernel.Vmm.Tree.{Places}
use box_kernel.Vmm.Space.{space, IsSpace}
use box_kernel.Vmm.Map.{IsPageFlags, vmm_map_page-refines}
use box_kernel.Vmm.Range.{IsRange, page_addr-page_of, unmap_from_lem}

-- What mapping pages comes to, with the number of pages before the first, the result and the state.
abbrev pub Mapping : Vmm → ℕ → ℕ → ℕ → ℕ → ℕ → MapResult × Vmm → Type 0
Mapping s ctx addr frame flags count (r, s') =
    (places' : Places) × IsSpace s' ctx places'
    × (r.success ≡ true → r.pages_mapped ≡ count)
    × ((w : ℕ)
        → space s' ctx w ≡ (
            if in_run (page_of addr) r.pages_mapped (page_of w)
            then (if r.success
                then some (frame + (page_of w - page_of addr) * 4096, flags)
                else none)
            else space s ctx w))

-- what stands at the `i` pages from `first` on
abbrev mapped_run : ℕ → ℕ → ℕ → ℕ → ℕ → Option (ℕ × ℕ) → Option (ℕ × ℕ)
mapped_run frame flags first i page other =
    if in_run first i page then some (frame + (page - first) * 4096, flags) else other

-- one page more in a run
mapped_run_suc :
    (frame flags first i page : ℕ) (other : Option (ℕ × ℕ))
    → (if first + i == page
        then some (frame + i * 4096, flags)
        else mapped_run frame flags first i page other)
      ≡ mapped_run frame flags first (i + 1) page other
mapped_run_suc frame flags first i page other = elim (Bool-cases (first + i == page)) [
  | inl here ↦
      let last : first + i ≡ page = (==_iff (first + i) page).0 here in
      let run : in_run first (i + 1) page ≡ true = ground (arith, last) in
      let offset : page - first ≡ i = omega (arith, last) in rw (here, run, offset) refl
  | inr off ↦
      let run : in_run first (i + 1) page ≡ in_run first i page = ground arith in rw (off, run) refl
]

module _ (ctx : ℕ) {addr count : ℕ} (range : IsRange addr count) (frame flags : ℕ)
    (ok : IsPageFlags flags) (frames : frame + count * 4096 ≤ 2 ^ 52) where
  -- the state with the first `i` pages mapped
  abbrev pub Filled : Vmm → ℕ → Vmm → Type 0
  Filled s i s' =
      (w : ℕ) → space s' ctx w ≡ mapped_run frame flags (page_of addr) i (page_of w) (space s ctx w)

  -- the round that maps page `i`
  pub fill_one :
      (s s1 : Vmm) (i : ℕ) (r : MapResult × Vmm)
      → i < count
      → Filled s i s1
      → ((w : ℕ)
          → space r.1 ctx w ≡ (
              if r.0.success && (page_of (u64 (addr + i * vmm_page_size)) == page_of w)
              then some (u64 (frame + i * vmm_page_size), flags)
              else space s1 ctx w))
      → r.0.success ≡ true
      → Filled s (i + 1) r.1
  fill_one s s1 i r inside filled mapped_to done w =
      let at = page_addr-page_of range i inside in
      let frame' : u64 (frame + i * vmm_page_size) ≡ frame + i * 4096 =
        omega (arith, frames, inside) in
      mapped_to w
      ∙ rw (done, at, frame', filled w)
          (mapped_run_suc frame flags (page_of addr) i (page_of w) (space s ctx w))

  -- the round at which page `i` cannot be mapped, and the pages before it are unmapped
  roll_back :
      (places : Places) (s s1 : Vmm) (i : ℕ) (r : MapResult × Vmm)
      → i < count
      → Filled s i s1
      → IsSpace r.1 ctx places
      → ((w : ℕ) → space r.1 ctx w ≡ space s1 ctx w)
      → let s' = (unmap_from r.1 ctx addr 0 i).1 in
        IsSpace s' ctx places
        × ((w : ℕ)
            → space s' ctx w
              ≡ (if in_run (page_of addr) i (page_of w) then none else space s ctx w))
  roll_back places s s1 i r inside filled h same =
      let (h', after) = unmap_from_lem ctx places range i 0 r.1 h (omega (arith, inside)) in
      (
        h',
        λ w.
            after w
            ∙ ap (λ p. if in_run p i (page_of w) then none else space r.1 ctx w) (omega arith)
            ∙ ap (λ x. if in_run (page_of addr) i (page_of w) then none else x) (same w ∙ filled w)
            ∙ elim (Bool-cases (in_run (page_of addr) i (page_of w))) [
              | inl b ↦ rw b refl
              | inr b ↦ rw b refl
            ],
      )

  map_from_lem :
      (n i : ℕ) {places : Places} (s s1 : Vmm)
      → IsSpace s1 ctx places
      → i + n ≡ count
      → Filled s i s1
      → Mapping s ctx addr frame flags count (map_from ctx addr frame flags i n s1)
  unfolding map_from on_mapped
  map_from_lem zero i {places} s s1 h all filled =
      (places, h, λ _. omega (arith, all), λ w. filled w)
  map_from_lem (suc n) i {places} s s1 h all filled =
      let a = u64 (addr + i * vmm_page_size) in
      let f = u64 (frame + i * vmm_page_size) in
      let r = vmm_map_page s1 ctx a f flags in
      let (places', h', mapped_to) =
        vmm_map_page-refines a f flags h ok (omega (arith, frames, all)) in
      elim (Bool-cases r.0.success) [
        | inl done ↦ rw done (
            map_from_lem n (i + 1) s r.1 h' (omega (arith, all))
              (fill_one s s1 i r (omega (arith, all)) filled mapped_to done))
        | inr lost ↦
            let same : (w : ℕ) → space r.1 ctx w ≡ space s1 ctx w =
              λ w. mapped_to w ∙ rw lost refl in
            let (h'', after) = roll_back places' s s1 i r (omega (arith, all)) filled h' same in
            rw lost (places', h'', λ e. absurd (false≢true e), after)
      ]

-- Mapping the pages of a range, to frames below 2^52 with the flags of a present page, in a context
-- whose tables are a tree: when it succeeds it has mapped them all, and every address of the range
-- has its frame and the flags. When it fails, nothing is mapped any more at the pages before the
-- one that failed. Every other address has what it had.
pub vmm_map_pages-refines :
    {s : Vmm} {ctx : ℕ} {places : Places} {addr count : ℕ} (frame flags : ℕ)
    → IsSpace s ctx places
    → IsRange addr count
    → IsPageFlags flags
    → frame + count * 4096 ≤ 2 ^ 52
    → Mapping s ctx addr frame flags count (vmm_map_pages s ctx addr frame count flags)
unfolding vmm_map_pages
vmm_map_pages-refines {s} {ctx} {places} {addr} {count} frame flags h range ok frames =
    map_from_lem ctx range frame flags ok frames count 0 s s h (omega arith) (λ w. ground arith)
