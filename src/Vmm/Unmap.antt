-- ===== src/Vmm/Unmap.antt =====
-- What `vmm_unmap_page` of vmm.c does to an address space: it takes one page out of it.
use mathlib.Core.Path.{subst}
use box_kernel.Base.{
  ℕ, ◌≡◌, refl, sym, ◌∙◌, ap, inl, inr, Bool, true, false, not, ◌&&◌, Option, none, some, ◌==◌,
  if◌then◌else◌, arith, Bool-cases, ne→==, update, ap-if,
}
use box_kernel.Vmm.{
  Vmm, flag_present, flag_user, has_flag, vmm_is_page_aligned, vmm_pte_to_flags, pt_index,
  write_entry, vmm_flush_tlb_page,
}
use box_kernel.Vmm.Entry.{page_of}
use box_kernel.Vmm.Table.{entry_of, vmm_get_pte}
use box_kernel.Vmm.Page.{count_unmapped, unmap_entry, vmm_unmap_page}
use box_kernel.Vmm.Tree.{Places, follow, read}
use box_kernel.Vmm.Space.{view, way_down, entry_at, space, IsSpace, vmm_get_pte_lem}
use box_kernel.Vmm.Rewrite.{rewritten_lem}

-- whether something is there
abbrev pub is_some {ℓ} : {A : Type ℓ} → Option A → Bool
is_some none = false
is_some (some a) = true

-- What unmapping `addr` comes to, with the result and the state after it.
abbrev pub UnmapOutcome : Vmm → ℕ → Places → ℕ → Bool × Vmm → Type 0
UnmapOutcome s ctx places addr (done, s') =
    (done ≡ (vmm_is_page_aligned addr && is_some (space s ctx addr)))
    × IsSpace s' ctx places
    × ((w : ℕ)
        → space s' ctx w ≡ (if done && (page_of addr == page_of w) then none else space s ctx w))

view_empty : view 0 ≡ none
unfolding view has_flag
view_empty = refl

pub is_some-view : (e : ℕ) → is_some (view e) ≡ has_flag e flag_present
unfolding view
is_some-view e = elim (Bool-cases (has_flag e flag_present)) [
  | inl here ↦ rw here refl
  | inr gone ↦ rw gone refl
]

-- the counters apart, the state is the same
count_unmapped_tables :
    (s : Vmm) (ctx : ℕ) (user : Bool)
    → let s' = count_unmapped s ctx user in
      (s'.zone ≡ s.zone) × (s'.memory ≡ s.memory) × ((s'.contexts ctx).pml4 ≡ (s.contexts ctx).pml4)
unfolding count_unmapped
count_unmapped_tables s ctx true = (refl, refl, ground arith)
count_unmapped_tables s ctx false = (refl, refl, ground arith)

module _ {s : Vmm} {ctx : ℕ} {places : Places} (h : IsSpace s ctx places) (addr : ℕ)
    (aligned : vmm_is_page_aligned addr ≡ true) where
  abbrev root : ℕ
  root = (s.contexts ctx).pml4

  -- whether something is mapped, by the entry at the end of the way
  mapped-by :
      (end : Option ℕ) (b : Bool)
      → follow s.memory root (way_down addr) ≡ end
      → has_flag (read s.memory end (pt_index addr)) flag_present ≡ b
      → b ≡ (vmm_is_page_aligned addr && is_some (space s ctx addr))
  unfolding space
  mapped-by end b leads flag = sym (
      ap (λ c. c && is_some (space s ctx addr)) aligned
      ∙ is_some-view (entry_at s root addr)
      ∙ ap (λ o. has_flag (read s.memory o (pt_index addr)) flag_present) leads
      ∙ flag)

  unmap_present :
      (t : ℕ)
      → follow s.memory root (way_down addr) ≡ some t
      → has_flag (s.memory t (pt_index addr)) flag_present ≡ true
      → UnmapOutcome s ctx places addr (unmap_entry s ctx (some (t, pt_index addr)))
  unfolding unmap_entry space write_entry vmm_flush_tlb_page
  unmap_present t leads here =
      let user = has_flag (vmm_pte_to_flags (s.memory t (pt_index addr))) flag_user in
      let (zone, memory, top) = count_unmapped_tables s ctx user in
      let s' = vmm_flush_tlb_page (write_entry (count_unmapped s ctx user) t (pt_index addr) 0) in
      let done =
        rewritten_lem h addr t 0 leads s' zone
          (ap (λ m. update m t (update (m t) (pt_index addr) 0)) memory) top in
      rw here (
        mapped-by (some t) true leads here,
        done.is_space,
        λ w.
            ap view (done.entry w)
            ∙ ap-if view (page_of addr == page_of w) 0 (entry_at s root w)
            ∙ ap (λ x. if page_of addr == page_of w then x else view (entry_at s root w))
                view_empty,
      )

  -- an entry that is not present is left alone
  unmap_absent :
      (end : Option ℕ)
      → follow s.memory root (way_down addr) ≡ end
      → has_flag (read s.memory end (pt_index addr)) flag_present ≡ false
      → UnmapOutcome s ctx places addr (unmap_entry s ctx (entry_of (pt_index addr) end))
  unfolding unmap_entry entry_of
  unmap_absent none leads gone = (mapped-by none false leads gone, h, λ w. refl)
  unmap_absent (some t) leads gone = rw gone (mapped-by (some t) false leads gone, h, λ w. refl)

  unmap_end :
      (end : Option ℕ)
      → follow s.memory root (way_down addr) ≡ end
      → UnmapOutcome s ctx places addr (unmap_entry s ctx (entry_of (pt_index addr) end))
  unfolding entry_of has_flag
  unmap_end none leads = unmap_absent none leads refl
  unmap_end (some t) leads =
      elim (Bool-cases (has_flag (s.memory t (pt_index addr)) flag_present)) [
        | inl here ↦ unmap_present t leads here
        | inr gone ↦ unmap_absent (some t) leads gone
      ]

-- In a context whose tables are a tree, `vmm_unmap_page` succeeds for a page-aligned address at
-- which something is mapped, and only then. It leaves a tree; after it has succeeded nothing is
-- mapped at the addresses of that page, and every other address, or every address when it failed,
-- has what it had.
pub vmm_unmap_page-refines :
    {s : Vmm} {ctx : ℕ} {places : Places} (addr : ℕ)
    → IsSpace s ctx places
    → UnmapOutcome s ctx places addr (vmm_unmap_page s ctx addr)
unfolding vmm_unmap_page
vmm_unmap_page-refines {s} {ctx} {places} addr h =
    rw (ne→== ctx 0 h.exists) (elim (Bool-cases (vmm_is_page_aligned addr)) [
      | inl on ↦
          subst (UnmapOutcome s ctx places addr)
            (sym (
              ap
                (λ (b : Bool).
                  if not b then (false, s) else unmap_entry s ctx (vmm_get_pte s ctx addr))
                on))
            (subst (λ o. UnmapOutcome s ctx places addr (unmap_entry s ctx o))
              (sym (vmm_get_pte_lem h addr))
              (unmap_end h addr on (follow s.memory (s.contexts ctx).pml4 (way_down addr)) refl))
      | inr off ↦ rw off (refl, h, λ w. refl)
    ])
