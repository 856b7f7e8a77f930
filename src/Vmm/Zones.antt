-- ===== src/Vmm/Zones.antt =====
-- What vmm.c takes from the zone of pages while it makes tables: no page that was in use is given
-- up, so the frames of a call that failed can be given back.
use mathlib.Core.Path.{subst}
use box_kernel.Base.{
  ℕ, zero, suc, ◌+◌, ◌*◌, ◌≤◌, ◌≡◌, ◌≢◌, refl, sym, ◌∙◌, ap, inl, inr, Bool, true, false, not, ◌||◌,
  Option, none, some, List, [], ◌∷◌, ◌==◌, if-both, arith, Bool-cases, u64, take,
}
use box_kernel.Pmm.{Zone, pmm_get_bit, pmm_alloc, pmm_free}
use box_kernel.Pmm.Alloc.{IsValid, alloc-cases, alloc_run, in_run}
use box_kernel.Pmm.Free.{in_use, pmm_free_lem, address}
use box_kernel.Vmm.{
  Vmm, MapResult, vmm_page_size, flag_present, flag_user, has_flag, write_entry, new_table,
  vmm_alloc_page_table, vmm_flush_tlb_page, vmm_is_page_aligned, vmm_pte_to_flags,
}
use box_kernel.Vmm.Table.{
  link, next_table, on_table, descend, vmm_get_or_create_table, vmm_get_or_create_pte, indices,
  vmm_get_pte,
}
use box_kernel.Vmm.Page.{
  count_mapped, map_entry, vmm_map_page, count_unmapped, unmap_entry, vmm_unmap_page, unmap_from,
  on_mapped, map_from, vmm_map_pages,
}

-- `z'` is in order, and what was in use in `z` still is.
pub record Keeps (z z' : Zone) : Type 0 where
  pub valid : IsValid z'
  pub base : z'.base ≡ z.base
  pub pages : z'.pages ≡ z.pages
  pub bits : (j : ℕ) → pmm_get_bit z j ≡ true → pmm_get_bit z' j ≡ true

pub Keeps-refl : {z : Zone} → IsValid z → Keeps z z
Keeps-refl v = record { valid = v; base = refl; pages = refl; bits = λ j h. h }

pub Keeps-trans : {z z' z'' : Zone} → Keeps z z' → Keeps z' z'' → Keeps z z''
Keeps-trans k k' = record {
  valid = k'.valid;
  base = k'.base ∙ k.base;
  pages = k'.pages ∙ k.pages;
  bits = λ j h. k'.bits j (k.bits j h);
}

pub pmm_alloc-Keeps : {z : Zone} (n : ℕ) → IsValid z → n ≢ 0 → Keeps z (pmm_alloc z n).1
pmm_alloc-Keeps {z} n v some_pages = elim (alloc-cases v n some_pages) [
  | inl (k, out, run) ↦
      let (page, at, inside, free, base, pages, bits, valid) =
        alloc_run v n some_pages _ (ap (λ r. r.0) out) in
      record {
        valid = valid;
        base = base;
        pages = pages;
        bits = λ j h. bits j ∙ rw h (or_true (in_run page n j));
      }
  | inr (out, _, _) ↦ subst (λ r. Keeps z r.1) (sym out) (Keeps-refl v)
]
  where
    or_true : (b : Bool) → (b || true) ≡ true
    or_true true = refl
    or_true false = refl

abbrev KeepsV : Vmm → Vmm → Type 0
KeepsV s s' = Keeps s.zone s'.zone

module _ (s : Vmm) (v : IsValid s.zone) where
  next_table-Keeps : (t i : ℕ) → KeepsV s (next_table s t i).1
  unfolding next_table vmm_alloc_page_table link new_table write_entry
  next_table-Keeps t i = elim (Bool-cases (has_flag (s.memory t i) flag_present)) [
    | inl here ↦ rw here (Keeps-refl v)
    | inr gone ↦
        rw gone (linked (pmm_alloc s.zone 1) (pmm_alloc-Keeps 1 v (λ e. absurd (omega (arith, e)))))
  ]
    where
      linked : (r : Option ℕ × Zone) → Keeps s.zone r.1 → KeepsV s (link t i (new_table s r)).1
      linked (none, z) k = k
      linked (some phys, z) k = k

-- what a walk comes to after a step
on_table-Keeps :
    (s : Vmm) (go : Vmm → ℕ → Option ℕ × Vmm) (r : Option ℕ × Vmm)
    → KeepsV s r.1
    → ((s' : Vmm) (u : ℕ) → IsValid s'.zone → KeepsV s' (go s' u).1)
    → KeepsV s (on_table go r).1
unfolding on_table
on_table-Keeps s go (none, s') k rest = k
on_table-Keeps s go (some u, s') k rest = Keeps-trans k (rest s' u k.valid)

descend-Keeps : (path : List ℕ) (s : Vmm) (t : ℕ) → IsValid s.zone → KeepsV s (descend path s t).1
unfolding descend
descend-Keeps [] s t v = Keeps-refl v
descend-Keeps (i ∷ path) s t v =
    on_table-Keeps s (λ s' u. descend path s' u) (next_table s t i) (next_table-Keeps s v t i)
      (λ s' u v'. descend-Keeps path s' u v')

pub map_entry_zone :
    (ctx addr frame flags : ℕ) (r : Option (ℕ × ℕ) × Vmm)
    → (map_entry ctx addr frame flags r).1.zone ≡ r.1.zone
unfolding map_entry count_mapped vmm_flush_tlb_page write_entry
map_entry_zone ctx addr frame flags (none, s) = refl
map_entry_zone ctx addr frame flags (some (t, i), s) =
    if-both (λ (x : MapResult × Vmm). x.1.zone ≡ s.zone) (has_flag (s.memory t i) flag_present) refl
      (if-both (λ (x : Vmm). x.zone ≡ s.zone) (has_flag flags flag_user) refl refl)

pub vmm_map_page-Keeps :
    (s : Vmm) (ctx addr frame flags : ℕ)
    → IsValid s.zone
    → KeepsV s (vmm_map_page s ctx addr frame flags).1
unfolding vmm_map_page vmm_get_or_create_pte vmm_get_or_create_table
vmm_map_page-Keeps s ctx addr frame flags v =
    if-both (λ (x : MapResult × Vmm). KeepsV s x.1) (ctx == 0) (Keeps-refl v)
      (if-both (λ (x : MapResult × Vmm). KeepsV s x.1)
        (not (vmm_is_page_aligned addr) || not (vmm_is_page_aligned frame)) (Keeps-refl v)
        (subst (Keeps s.zone)
          (sym (map_entry_zone ctx addr frame flags (vmm_get_or_create_pte s ctx addr)))
          (if-both (λ (x : Option ℕ × Vmm). KeepsV s x.1)
            ((ctx == 0) || ((s.contexts ctx).pml4 == 0)) (Keeps-refl v)
            (descend-Keeps (take 3 (indices addr)) s (s.contexts ctx).pml4 v))))

unmap_entry_zone : (s : Vmm) (ctx : ℕ) (r : Option (ℕ × ℕ)) → (unmap_entry s ctx r).1.zone ≡ s.zone
unfolding unmap_entry count_unmapped vmm_flush_tlb_page write_entry
unmap_entry_zone s ctx none = refl
unmap_entry_zone s ctx (some (t, i)) =
    if-both (λ (x : Bool × Vmm). x.1.zone ≡ s.zone) (not (has_flag (s.memory t i) flag_present))
      refl
      (if-both (λ (x : Vmm). x.zone ≡ s.zone) (has_flag (vmm_pte_to_flags (s.memory t i)) flag_user)
        refl refl)

pub vmm_unmap_page_zone : (s : Vmm) (ctx addr : ℕ) → (vmm_unmap_page s ctx addr).1.zone ≡ s.zone
unfolding vmm_unmap_page
vmm_unmap_page_zone s ctx addr =
    if-both (λ (x : Bool × Vmm). x.1.zone ≡ s.zone) ((ctx == 0) || not (vmm_is_page_aligned addr))
      refl (unmap_entry_zone s ctx (vmm_get_pte s ctx addr))

unmap_from_zone : (n i : ℕ) (s : Vmm) (ctx addr : ℕ) → (unmap_from s ctx addr i n).1.zone ≡ s.zone
unfolding unmap_from
unmap_from_zone zero i s ctx addr = refl
unmap_from_zone (suc n) i s ctx addr =
    unmap_from_zone n (i + 1) _ ctx addr
    ∙ vmm_unmap_page_zone s ctx (u64 (addr + i * vmm_page_size))

map_from-Keeps :
    (n i : ℕ) (s : Vmm) (ctx addr frame flags : ℕ)
    → IsValid s.zone
    → KeepsV s (map_from ctx addr frame flags i n s).1
unfolding map_from on_mapped
map_from-Keeps zero i s ctx addr frame flags v = Keeps-refl v
map_from-Keeps (suc n) i s ctx addr frame flags v =
    let a = u64 (addr + i * vmm_page_size) in
    let f = u64 (frame + i * vmm_page_size) in
    let r = vmm_map_page s ctx a f flags in
    let k = vmm_map_page-Keeps s ctx a f flags v in
    if-both (λ (x : MapResult × Vmm). KeepsV s x.1) r.0.success
      (Keeps-trans k (map_from-Keeps n (i + 1) r.1 ctx addr frame flags k.valid))
      (subst (Keeps s.zone) (sym (unmap_from_zone i 0 r.1 ctx addr)) k)

pub vmm_map_pages-Keeps :
    (s : Vmm) (ctx addr frame count flags : ℕ)
    → IsValid s.zone
    → KeepsV s (vmm_map_pages s ctx addr frame count flags).1
unfolding vmm_map_pages
vmm_map_pages-Keeps s ctx addr frame count flags v = map_from-Keeps count 0 s ctx addr frame flags v

-- Frames that were handed out can be given back as long as what was in use still is.
pub give_back_lem :
    {z z' : Zone} (n frame : ℕ)
    → IsValid z
    → n ≢ 0
    → (pmm_alloc z n).0 ≡ some frame
    → Keeps (pmm_alloc z n).1 z'
    → (z'' : Zone) × (pmm_free z' frame n ≡ some z'')
give_back_lem {z} {z'} n frame v some_pages h k =
    let (page, at, inside, free, base, pages, bits, valid) = alloc_run v n some_pages frame h in
    let inside' : page + n ≤ z'.pages = omega (arith, inside, pages, k.pages) in
    let used = in_use z' n page (λ j a b. k.bits j (bits j ∙ ground (arith, a, b))) in
    let (z'', freed, _, _) = pmm_free_lem k.valid page n some_pages inside' 0 used in
    let same : frame ≡ address k.valid page n some_pages inside' =
      omega (arith, at, base, k.base) in
    (z'', ap (λ a. pmm_free z' a n) same ∙ freed)
