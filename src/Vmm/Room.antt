-- ===== src/Vmm/Room.antt =====
-- When `vmm_map_page` of vmm.c succeeds: with a free page in the zone for each table that it may
-- have to make, an unmapped page can be mapped.
use box_kernel.Base.{
  ℕ, zero, suc, ◌+◌, ◌≤◌, ◌<◌, ◌≡◌, ◌≢◌, ◌⊎◌, refl, sym, ◌∙◌, ap, inl, inr, true, false, ◌||◌,
  Option, none, some, List, [], ◌∷◌, ◌==◌, arith, Bool-cases, length, ne→==, ==_iff,
}
use mathlib.Core.Path.{subst}
use mathlib.Core.Option.{none-ne-some}
use native.Mathlib.Decide.{dec_lt}
use box_kernel.Pmm.{Zone, pmm_get_bit, pmm_alloc, count_free, pmm_free_pages}
use box_kernel.Pmm.Alloc.{IsValid, in_run, alloc_run, pmm_alloc-succeeds}
use box_kernel.Pmm.Search.{all_free, all_free-get_bit, get_bit-all_free}
use box_kernel.Vmm.{
  Vmm, Context, flag_present, has_flag, vmm_is_page_aligned, pt_index, new_table,
  vmm_alloc_page_table, write_entry,
}
use box_kernel.Vmm.Table.{link, next_table, on_table, descend, entry_of, vmm_get_or_create_pte}
use box_kernel.Vmm.Page.{map_entry, vmm_map_page}
use box_kernel.Vmm.Tree.{Places, read}
use box_kernel.Vmm.Walk.{descend_lem}
use box_kernel.Vmm.Space.{way_down, entry_at, space, IsSpace}
use box_kernel.Vmm.Map.{space-Walked, get_or_create_pte_lem}
use box_kernel.Vmm.Unmap.{is_some, is_some-view}
use box_kernel.Vmm.Zones.{pmm_alloc-Keeps, map_entry_zone}

-- the count of the free pages, with one page more in use
module _ (z z' : Zone) (page : ℕ) (was_free : pmm_get_bit z page ≡ false)
    (bits : (j : ℕ) → pmm_get_bit z' j ≡ (in_run page 1 j || pmm_get_bit z j)) where
  count_above : (n i : ℕ) → page < i → count_free z' i n ≡ count_free z i n
  unfolding count_free
  count_above zero i above = refl
  count_above (suc n) i above =
      let same : pmm_get_bit z' i ≡ pmm_get_bit z i = bits i ∙ ground arith in
      rw (same, count_above n (i + 1) (omega arith)) refl

  count_taken : (n i : ℕ) → i ≤ page → page < i + n → count_free z' i n + 1 ≡ count_free z i n
  unfolding count_free
  count_taken zero i low high = absurd (omega arith)
  count_taken (suc n) i low high = elim (Bool-cases (i == page)) [
    | inl here ↦
        let same : i ≡ page = (==_iff i page).0 here in
        let taken : pmm_get_bit z' i ≡ true = bits i ∙ ground (arith, same) in
        let free : pmm_get_bit z i ≡ false = ap (pmm_get_bit z) same ∙ was_free in
        rw (taken, free, count_above n (i + 1) (omega (arith, same))) refl
    | inr other ↦
        let same : pmm_get_bit z' i ≡ pmm_get_bit z i = bits i ∙ ground arith in
        let rest = count_taken n (i + 1) (ground arith) (omega arith) in
        elim (Bool-cases (pmm_get_bit z i)) [
          | inl used ↦ rw (same, used) rest
          | inr free ↦ rw (same, free) (omega (arith, rest))
        ]
  ]

-- a page that is counted
counted :
    (z : Zone) (n i : ℕ) → 0 < count_free z i n → (j : ℕ) × (j < i + n) × (pmm_get_bit z j ≡ false)
unfolding count_free
counted z zero i some_free = absurd (omega arith)
counted z (suc n) i some_free = elim (Bool-cases (pmm_get_bit z i)) [
  | inr free ↦ (i, omega arith, free)
  | inl used ↦
      let (j, below, free) = counted z n (i + 1) (rw used at some_free) in
      (j, omega (arith, below), free)
]

-- with a free page an allocation of one succeeds, and takes one
pub alloc_one :
    {z : Zone}
    → IsValid z
    → 0 < pmm_free_pages z
    → (addr : ℕ) × ((pmm_alloc z 1).0 ≡ some addr)
      × (pmm_free_pages (pmm_alloc z 1).1 + 1 ≡ pmm_free_pages z)
unfolding pmm_free_pages
alloc_one {z} v some_free =
    let one : suc zero ≢ zero = λ e. absurd (omega (arith, e)) in
    let (j, below, free) = counted z z.pages 0 some_free in
    let place : ((z.last_free ≤ j) × (j + 1 ≤ z.pages)) ⊎ (j + 1 ≤ z.last_free) =
      elim (dec_lt j z.last_free) [
        | yes low ↦ inr (omega (arith, low))
        | no high ↦ inl (omega (arith, high), omega (arith, below))
      ] in
    let run : all_free z j 1 ≡ true = get_bit-all_free z 1 j (λ k low high.
      let same : k ≡ j = omega (arith, low, high) in ap (pmm_get_bit z) same ∙ free) in
    let (addr, success) = pmm_alloc-succeeds v 1 one j place run in
    let (page, at, inside, was_free, base, pages, bits, valid) = alloc_run v 1 one addr success in
    (
      addr,
      success,
      ap (λ n. count_free (pmm_alloc z 1).1 0 n + 1) pages
          ∙ count_taken z (pmm_alloc z 1).1 page
              (all_free-get_bit z 1 page page was_free (omega arith) (omega arith)) bits z.pages 0
              (omega arith) (omega (arith, inside)),
    )

-- A step of the walk that has a free page left reaches a table, and takes one page at most.
abbrev Reaches : Vmm → ℕ → Option ℕ × Vmm → Type 0
Reaches s n (r, s') =
    (table : ℕ) × (r ≡ some table) × IsValid s'.zone × (n ≤ pmm_free_pages s'.zone)

next_table-Reaches :
    (s : Vmm) (t i n : ℕ)
    → IsValid s.zone
    → n + 1 ≤ pmm_free_pages s.zone
    → Reaches s n (next_table s t i)
unfolding next_table vmm_alloc_page_table link new_table write_entry
next_table-Reaches s t i n v room = elim (Bool-cases (has_flag (s.memory t i) flag_present)) [
  | inl here ↦ rw here (_, refl, v, omega (arith, room))
  | inr gone ↦
      let (addr, success, left) = alloc_one v (omega (arith, room)) in
      let k = pmm_alloc-Keeps 1 v (λ e. absurd (omega (arith, e))) in
      rw gone (
        subst (λ o. Reaches s n (link t i (new_table s (o, (pmm_alloc s.zone 1).1)))) (sym success)
          (_, refl, k.valid, omega (arith, room, left)))
]

descend-Reaches :
    (path : List ℕ) (n : ℕ) (s : Vmm) (t : ℕ)
    → IsValid s.zone
    → length path + n ≤ pmm_free_pages s.zone
    → Reaches s n (descend path s t)
unfolding descend on_table
descend-Reaches [] n s t v room = (t, refl, v, omega (arith, room))
descend-Reaches (i ∷ path) n s t v room =
    let (u, found, v', left) = next_table-Reaches s t i (length path + n) v (omega (arith, room)) in
    let s' = (next_table s t i).1 in
    subst (λ o. Reaches s n (on_table (λ s'' u'. descend path s'' u') (o, s'))) (sym found)
      (descend-Reaches path n s' u v' left)

-- In a context whose tables are a tree, mapping a page-aligned address, at which nothing is mapped,
-- to a page-aligned frame succeeds when the zone has three free pages, and takes no more of them.
pub vmm_map_page-succeeds :
    {s : Vmm} {ctx : ℕ} {places : Places} (addr frame flags : ℕ)
    → IsSpace s ctx places
    → vmm_is_page_aligned addr ≡ true
    → vmm_is_page_aligned frame ≡ true
    → space s ctx addr ≡ none
    → (n : ℕ) → 3 + n ≤ pmm_free_pages s.zone
    → let (r, s') = vmm_map_page s ctx addr frame flags in
      (r.success ≡ true) × (n ≤ pmm_free_pages s'.zone)
unfolding vmm_map_page map_entry entry_of space
vmm_map_page-succeeds {s} {ctx} {places} addr frame flags h aligned aligned' unmapped n room =
    let root = (s.contexts ctx).pml4 in
    let s' = (descend (way_down addr) s root).1 in
    let i = pt_index addr in
    let (t, found, _, left) = descend-Reaches (way_down addr) n s root h.ready.zone_valid room in
    let (places', walk, end) = descend_lem (way_down addr) root 0 0 h.ready h.ready.tree.top refl in
    let (h', same) = space-Walked h walk in
    let go = λ (o : Option ℕ). (map_entry ctx addr frame flags (entry_of i o, s')).0.success in
    let zone = map_entry_zone ctx addr frame flags (vmm_get_or_create_pte s ctx addr) in
    rw (ne→== ctx 0 h.exists, aligned, aligned')
      ((
        ap (λ o. (map_entry ctx addr frame flags o).0.success) (get_or_create_pte_lem h addr)
            ∙ elim end [
              | inl lost ↦ absurd (none-ne-some t (sym lost ∙ found))
              | inr (x, at, leads) ↦
                  let entry : entry_at s' (s'.contexts ctx).pml4 addr ≡ s'.memory x i =
                    ap (λ (c : ℕ → Context). entry_at s' (c ctx).pml4 addr) walk.contexts
                    ∙ ap (λ o. read s'.memory o i) leads in
                  let gone : has_flag (s'.memory x i) flag_present ≡ false =
                    ap (λ e. has_flag e flag_present) (sym entry)
                    ∙ sym (is_some-view (entry_at s' (s'.contexts ctx).pml4 addr))
                    ∙ ap is_some (same addr ∙ unmapped) in
                  ap go at ∙ rw gone refl
            ],
        subst (λ z. n ≤ pmm_free_pages z)
            (sym
              (zone ∙ ap (λ (o : Option (ℕ × ℕ) × Vmm). o.1.zone) (get_or_create_pte_lem h addr)))
            left,
      ))
