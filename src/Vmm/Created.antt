-- ===== src/Vmm/Created.antt =====
-- The first context that `vmm_create_context` of vmm.c makes: an empty address space.

use mathlib.Core.Path.{subst}
use mathlib.Core.Bool.{false≢true}
use mathlib.Core.Option.{none-ne-some}
use native.Mathlib.Decide.{dec_lt}
use box_kernel.Base.{
  ℕ, zero, suc, ◌+◌, ◌*◌, ◌%◌, ◌^◌, ◌<◌, ◌≡◌, ◌≢◌, ◌⊎◌, refl, sym, ◌∙◌, ap, inl, inr, Bool, true,
  none, some, List, [], ◌∷◌, ◌==◌, if◌then◌else◌, arith, Bool-cases, ne→==, ==_iff, update,
}
use box_kernel.Pmm.{Zone, pmm_page_size, pmm_get_bit, pmm_alloc, pmm_free_pages}
use box_kernel.Pmm.Alloc.{IsValid, alloc-cases, alloc_run}
use box_kernel.Vmm.{Vmm, flag_present, has_flag, new_table, vmm_alloc_page_table, pt_index}
use box_kernel.Vmm.Tree.{Memory, Places, IsTree, follow, read}
use box_kernel.Vmm.Space.{view, way_down, entry_at, space, IsSpace}
use box_kernel.Vmm.Room.{alloc_one}
use box_kernel.Vmm.Contexts.{fill_context, with_table, vmm_create_context}

-- the tree of one table
abbrev pub only : ℕ → Places
only root t = if root == t then some (0, 0) else none

only_root : (root t : ℕ) (x : ℕ × ℕ) → only root t ≡ some x → root ≡ t
only_root root t x h = elim (Bool-cases (root == t)) [
  | inl here ↦ (==_iff root t).0 here
  | inr other ↦ absurd (none-ne-some x (rw other at h))
]

follow_empty :
    (m : Memory) (root : ℕ) (path : List ℕ) (j : ℕ)
    → ((i : ℕ) → m root i ≡ 0)
    → read m (follow m root path) j ≡ 0
unfolding follow has_flag
follow_empty m root [] j empty = empty j
follow_empty m root (i ∷ path) j empty = rw (empty i) refl

only-IsTree :
    (zone : Zone) (m : Memory) (root page : ℕ)
    → ((i : ℕ) → m root i ≡ 0)
    → root ≡ zone.base + page * pmm_page_size
    → pmm_get_bit zone page ≡ true
    → IsTree zone m root (only root)
unfolding has_flag
only-IsTree zone m root page empty at used = record {
  top = ground arith;
  below = λ t d n i h deep here.
      let same = only_root root t (d, n) h in
      absurd (
        false≢true
          (sym (ap (λ e. has_flag e flag_present) (ap (λ u. m u i) (sym same) ∙ empty i)) ∙ here));
  in_use = λ p inside placed. elim (Bool-cases (root == zone.base + p * pmm_page_size)) [
    | inl here ↦
        let same : p ≡ page =
          omega (arith, (==_iff root (zone.base + p * pmm_page_size)).0 here, at) in
        ap (pmm_get_bit zone) same ∙ used
    | inr other ↦ absurd (placed (ap (λ (b : Bool). if b then some (0, 0) else none) other))
  ];
}

-- What making the first context comes to: NULL with no free page, or the context, with nothing
-- mapped in it.
abbrev pub Created : Vmm → ℕ → ℕ × Vmm → Type 0
Created s ctx (made, s') =
    ((made ≡ 0) × (pmm_free_pages s.zone ≡ 0))
    ⊎ ((made ≡ ctx) × (root : ℕ) × IsSpace s' ctx (only root) × ((w : ℕ) → space s' ctx w ≡ none))

-- Making the first context, in the place `ctx` that `kmalloc` returned and with a zone of pages
-- that is in order, page-aligned and below 2^52, returns a context whose tables are a tree and in
-- which nothing is mapped, or, with no free page in the zone, NULL.
pub vmm_create_context-empty :
    (s : Vmm) (ctx : ℕ)
    → ctx ≢ 0
    → s.kernel_context ≡ 0
    → IsValid s.zone
    → s.zone.base % 4096 ≡ 0
    → s.zone.base + s.zone.pages * pmm_page_size < 2 ^ 52
    → Created s ctx (vmm_create_context s ctx)
unfolding vmm_create_context vmm_alloc_page_table new_table with_table fill_context space view
    has_flag
vmm_create_context-empty s ctx exists first valid aligned low =
    rw (ne→== ctx 0 exists) (elim (alloc-cases valid 1 one) [
      | inr (out, _, _) ↦
          subst (λ o. Created s ctx (with_table ctx (new_table s o))) (sym out)
            (inl (
              refl,
              elim (dec_lt 0 (pmm_free_pages s.zone)) [
                | no none_free ↦ omega (arith, none_free)
                | yes some_free ↦
                    let (addr, success, _) = alloc_one valid some_free in
                    absurd (none-ne-some addr (sym (ap (λ r. r.0) out) ∙ success))
              ],
            ))
      | inl (page, out, run) ↦
          subst (λ o. Created s ctx (with_table ctx (new_table s (o, (pmm_alloc s.zone 1).1))))
            (sym (ap (λ r. r.0) out)) (made _ (ap (λ r. r.0) out))
    ])
  where
    one : suc zero ≢ zero
    one e = absurd (omega (arith, e))

    made :
        (root : ℕ)
        → (pmm_alloc s.zone 1).0 ≡ some root
        → Created s ctx (with_table ctx (new_table s (some root, (pmm_alloc s.zone 1).1)))
    made root success =
        let (page, at, inside, free, base, pages, bits, valid') =
          alloc_run valid 1 one root success in
        let s' = fill_context (new_table s (some root, (pmm_alloc s.zone 1).1)).1 ctx root in
        let kept : s'.memory ≡ update s.memory root (λ _. 0) = rw first refl in
        let top : (s'.contexts ctx).pml4 ≡ root = ground arith in
        let empty : (i : ℕ) → s'.memory root i ≡ 0 = λ i. ap (λ m. m root i) kept ∙ ground arith in
        let above : 0 < root = omega (arith, at, valid.above_null) in
        inr (
          refl,
          root,
          record {
            exists = exists;
            has_top = λ e. absurd (omega (arith, top, e, above));
            ready = record {
              zone_valid = valid';
              base_aligned = ap (λ b. b % 4096) base ∙ aligned;
              addressable = omega (arith, base, pages, low);
              tree =
                  subst (λ r. IsTree s'.zone s'.memory r (only root)) (sym top)
                    (only-IsTree s'.zone s'.memory root page empty (omega (arith, at, base))
                      (bits page ∙ ground arith));
            };
          },
          λ w.
              ap (λ r. view (entry_at s' r w)) top
              ∙ ap view (follow_empty s'.memory root (way_down w) (pt_index w) empty),
        )
