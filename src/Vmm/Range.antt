-- ===== src/Vmm/Range.antt =====
-- What `vmm_unmap_pages` of vmm.c does to an address space, page after page.
use mathlib.Core.Bool.{false≢true}
use box_kernel.Base.{
  ℕ, zero, suc, ◌+◌, ◌*◌, ◌%◌, ◌^◌, ◌≤◌, ◌<◌, ◌≡◌, refl, sym, ◌∙◌, ap, inl, inr, true, false, ◌&&◌,
  Option, none, some, ◌==◌, if◌then◌else◌, arith, Bool-cases, ==_iff, u64,
}
use box_kernel.Pmm.Alloc.{in_run}
use box_kernel.Vmm.{Vmm, vmm_is_page_aligned, vmm_page_size}
use box_kernel.Vmm.Entry.{page_of, aligned_iff}
use box_kernel.Vmm.Page.{vmm_unmap_page, unmap_from, vmm_unmap_pages}
use box_kernel.Vmm.Tree.{Places}
use box_kernel.Vmm.Space.{view, space, IsSpace}
use box_kernel.Vmm.Rewrite.{entry_of_page}
use box_kernel.Vmm.Unmap.{is_some, vmm_unmap_page-refines}

-- `n` pages from a page-aligned address on that end within the address space.
pub record IsRange (addr n : ℕ) : Type 0 where
  pub starts : addr % 4096 ≡ 0
  pub fits : addr + n * 4096 ≤ 2 ^ 64
  pub within : page_of addr + n ≤ 2 ^ 36

pub space_of_page : (s : Vmm) (ctx a b : ℕ) → page_of a ≡ page_of b → space s ctx a ≡ space s ctx b
unfolding space
space_of_page s ctx a b same = ap view (entry_of_page s (s.contexts ctx).pml4 a b same)

module _ {addr count : ℕ} (range : IsRange addr count) (i : ℕ) (inside : i < count) where
  -- the address of page `i`
  abbrev page_addr : ℕ
  page_addr = u64 (addr + i * vmm_page_size)

  pub page_addr-page_of : page_of page_addr ≡ page_of addr + i
  page_addr-page_of = omega (arith, range.starts, range.fits, range.within, inside)

  pub page_addr_aligned : vmm_is_page_aligned page_addr ≡ true
  page_addr_aligned =
      aligned_iff page_addr
      ∙ (==_iff (page_addr % 4096) 0).1 (omega (arith, range.starts, range.fits, inside))

none_there : {A : Type 0} (o : Option A) → is_some o ≡ false → o ≡ none
none_there none h = refl
none_there (some a) h = absurd (false≢true (sym h))

-- the state after the `n` pages from page `first` on are taken out
abbrev Emptied : ℕ → Places → Vmm → ℕ → ℕ → Vmm → Type 0
Emptied ctx places s first n s' =
    IsSpace s' ctx places
    × ((w : ℕ) → space s' ctx w ≡ (if in_run first n (page_of w) then none else space s ctx w))

module _ (ctx : ℕ) (places : Places) {addr count : ℕ} (range : IsRange addr count) where
  -- one page unmapped, whether something was mapped there or not
  unmap_one :
      (s : Vmm) (i : ℕ)
      → IsSpace s ctx places
      → i < count
      → Emptied ctx places s
          (page_of addr + i)
          1
          (vmm_unmap_page s ctx (u64 (addr + i * vmm_page_size))).1
  unmap_one s i h inside =
      let a = u64 (addr + i * vmm_page_size) in
      let (done, h', after) = vmm_unmap_page-refines a h in
      let at = page_addr-page_of range i inside in
      let found : (vmm_unmap_page s ctx a).0 ≡ is_some (space s ctx a) =
        done ∙ ap (λ b. b && is_some (space s ctx a)) (page_addr_aligned range i inside) in
      (
        h',
        λ w. after w ∙ elim (Bool-cases (page_of a == page_of w)) [
          | inl here ↦
              let same : page_of a ≡ page_of w = (==_iff (page_of a) (page_of w)).0 here in
              let run : in_run (page_of addr + i) 1 (page_of w) ≡ true = ground (arith, at, same) in
              elim (Bool-cases (is_some (space s ctx a))) [
                | inl there ↦ rw (found, there, here, run) refl
                | inr gone ↦
                    rw (found, gone, run)
                      (sym (space_of_page s ctx a w same) ∙ none_there (space s ctx a) gone)
              ]
          | inr other ↦
              let run : in_run (page_of addr + i) 1 (page_of w) ≡ false = ground (arith, at) in
              rw (other, run)
                (elim (Bool-cases (vmm_unmap_page s ctx a).0) [
                  | inl b ↦ rw b refl
                  | inr b ↦ rw b refl
                ])
        ],
      )

  pub unmap_from_lem :
      (n i : ℕ) (s : Vmm)
      → IsSpace s ctx places
      → i + n ≤ count
      → Emptied ctx places s (page_of addr + i) n (unmap_from s ctx addr i n).1
  unfolding unmap_from
  unmap_from_lem zero i s h inside = (h, λ w. ground arith)
  unmap_from_lem (suc n) i s h inside =
      let (h', once) = unmap_one s i h (omega arith) in
      let (h'', rest) = unmap_from_lem n (i + 1) _ h' (omega arith) in
      (
        h'',
        λ w.
            rest w
            ∙ ap (λ x. if in_run (page_of addr + (i + 1)) n (page_of w) then none else x) (once w)
            ∙ ground arith,
      )

-- Where the pages of a range are unmapped in a context whose tables are a tree, whatever the result
-- is, nothing is mapped at them afterwards, and every other address has what it had.
pub vmm_unmap_pages-empties :
    {s : Vmm} {ctx : ℕ} {places : Places} {addr count : ℕ}
    → IsRange addr count
    → IsSpace s ctx places
    → let s' = (vmm_unmap_pages s ctx addr count).1 in
      IsSpace s' ctx places
      × ((w : ℕ)
          → space s' ctx w
            ≡ (if in_run (page_of addr) count (page_of w) then none else space s ctx w))
unfolding vmm_unmap_pages
vmm_unmap_pages-empties {s} {ctx} {places} {addr} {count} range h =
    let (h', after) = unmap_from_lem ctx places range count 0 s h (omega arith) in
    (
      h',
      λ w.
          after w
          ∙ ap (λ p. if in_run p count (page_of w) then none else space s ctx w) (omega arith),
    )
