-- ===== src/Vmm/Region/Fresh.antt =====
-- `vmm_alloc_pages` of vmm.c: fresh frames, at a place of the address space that fits.
use box_kernel.Base.{
  ℕ, ◌+◌, ◌-◌, ◌*◌, ◌%◌, ◌^◌, ◌≤◌, ◌<◌, ◌≡◌, ◌≢◌, refl, ◌∙◌, ap, inl, inr, true, false, ◌||◌,
  Option, none, some, ◌==◌, ltb, if◌then◌else◌, arith, Bool-cases, ==→ne, u64,
}
use box_kernel.Pmm.{Zone, pmm_page_size, pmm_alloc, pmm_free_pages}
use box_kernel.Pmm.Alloc.{alloc-cases, alloc_run, in_run}
use box_kernel.Pmm.Search.{all_free}
use box_kernel.Vmm.{
  Vmm, flag_user, has_flag, kernel_heap_base, kernel_heap_size, user_base, user_stack_top, set_zone,
  vmm_size_to_pages, vmm_pages_to_size,
}
use box_kernel.Vmm.Entry.{page_of}
use box_kernel.Vmm.Page.{vmm_map_pages}
use box_kernel.Vmm.Tree.{Places}
use box_kernel.Vmm.Space.{space, IsSpace}
use box_kernel.Vmm.Map.{IsPageFlags}
use box_kernel.Vmm.Range.{IsRange}
use box_kernel.Vmm.Fill.{vmm_map_pages-refines}
use box_kernel.Vmm.Succeeds.{vmm_map_pages-succeeds}
use box_kernel.Vmm.Region.{
  vmm_find_free_region, give_back, map_frames, alloc_user, alloc_kernel, alloc_frames,
  vmm_alloc_pages,
}
use box_kernel.Vmm.Region.FirstFit.{vmm_find_free_region-first}
use box_kernel.Vmm.Zones.{
  Keeps, Keeps-refl, Keeps-trans, pmm_alloc-Keeps, vmm_map_pages-Keeps, give_back_lem,
}
use box_kernel.Vmm.Fault.{zone_space}

-- What the allocation of `n` pages comes to, with the result and the state after it: 0, or the
-- address of pages that are mapped to frames which were free and follow one another.
abbrev pub Allocated : Vmm → ℕ → ℕ → ℕ → ℕ × Vmm → Type 0
Allocated s ctx n flags (addr, s') =
    addr ≢ 0
    → (page : ℕ) × (page + n ≤ s.zone.pages)
      × (all_free s.zone page n ≡ true)
      × ((w : ℕ)
          → space s' ctx w ≡ (
              if in_run (page_of addr) n (page_of w)
              then some
                  (s.zone.base + page * pmm_page_size + (page_of w - page_of addr) * 4096, flags)
              else space s ctx w))

-- The next place of the kernel heap is one of its pages.
pub record IsHeapPlace (addr : ℕ) : Type 0 where
  pub aligned : addr % 4096 ≡ 0
  pub low : kernel_heap_base ≤ addr
  pub high : addr ≤ kernel_heap_base + kernel_heap_size

-- it returns, with such a result
abbrev Returns : Vmm → ℕ → ℕ → ℕ → Option (ℕ × Vmm) → Type 0
Returns s ctx n flags o = (r : ℕ × Vmm) × (o ≡ some r) × Allocated s ctx n flags r

module _ {s : Vmm} {ctx : ℕ} {places : Places} (h : IsSpace s ctx places) (n flags frame : ℕ)
    (some_pages : n ≢ 0) (ok : IsPageFlags flags)
    (success : (pmm_alloc s.zone n).0 ≡ some frame) where
  abbrev after : Vmm
  after = set_zone s (pmm_alloc s.zone n).1

  -- the frames given back
  given_back :
      (s' : Vmm)
      → Keeps (pmm_alloc s.zone n).1 s'.zone
      → Returns s ctx n flags (give_back s' frame n)
  unfolding give_back
  given_back s' k =
      let (z, freed) = give_back_lem n frame h.ready.zone_valid some_pages success k in
      (
        (0, set_zone s' z),
        ap (λ (o : Option Zone). elim o [ none ↦ none | some z' ↦ some (0, set_zone s' z') ]) freed,
        λ e. absurd (e refl),
      )

  kept : Keeps s.zone (pmm_alloc s.zone n).1
  kept = pmm_alloc-Keeps n h.ready.zone_valid some_pages

  -- the frames mapped at a place, from a state with the same tables
  frames_mapped :
      (s1 : Vmm) (virt : ℕ)
      → IsSpace s1 ctx places
      → Keeps (pmm_alloc s.zone n).1 s1.zone
      → ((w : ℕ) → space s1 ctx w ≡ space s ctx w)
      → IsRange virt n
      → Returns s ctx n flags
          (map_frames ctx virt frame n flags (vmm_map_pages s1 ctx virt frame n flags))
  unfolding map_frames
  frames_mapped s1 virt h1 k same range =
      let (page, at, inside, free, _, _, _, _) =
        alloc_run h.ready.zone_valid n some_pages frame success in
      let r = vmm_map_pages s1 ctx virt frame n flags in
      let (_, _, all, mapped) =
        vmm_map_pages-refines frame flags h1 range ok
          (omega (arith, at, inside, h.ready.addressable)) in
      elim (Bool-cases r.0.success) [
        | inl done ↦ (
          (virt, r.1),
          rw done refl,
          λ _. (page, inside, free, λ w. mapped w ∙ rw (done, all done, same w, at) refl),
        )
        | inr lost ↦
            let (r', returns, out) =
              given_back r.1
                (Keeps-trans k (vmm_map_pages-Keeps s1 ctx virt frame n flags k.valid)) in
            (r', rw lost returns, out)
      ]

  -- a place among the user's pages
  user_returns : Returns s ctx n flags (alloc_user after ctx frame n flags)
  unfolding alloc_user vmm_size_to_pages vmm_pages_to_size space
  user_returns =
      let (page, at, inside, _, _, _, _, _) =
        alloc_run h.ready.zone_valid n some_pages frame success in
      let few : n < 2 ^ 40 = omega (arith, at, inside, h.ready.addressable) in
      let size = vmm_pages_to_size n in
      let pages : vmm_size_to_pages size ≡ n = omega (arith, few) in
      let virt = vmm_find_free_region after ctx size user_base user_stack_top in
      elim (Bool-cases (virt == 0)) [
        | inl null ↦
            let (r, returns, out) = given_back after (Keeps-refl kept.valid) in
            (r, rw null returns, out)
        | inr there ↦
            let range : IsRange virt n =
              elim (vmm_find_free_region-first (zone_space h kept) size user_base user_stack_top
                (omega (arith, some_pages, few)) (omega arith) (omega (arith, few))) [
                  | inl (k, at', fit) ↦ record {
                    starts = omega (arith, at');
                    fits = omega (arith, at', pages, fit.ends);
                    within = omega (arith, at', pages, fit.ends);
                  }
                  | inr (null, _) ↦ absurd (==→ne virt 0 there null)
                ] in
            let (r, returns, out) =
              frames_mapped after virt (zone_space h kept) (Keeps-refl kept.valid) (λ w. refl)
                range in
            (r, rw there returns, out)
      ]

  -- the next place of the kernel heap
  kernel_returns :
      IsHeapPlace s.kernel_heap_current
      → n ≤ 2 ^ 34
      → Returns s ctx n flags (alloc_kernel after ctx frame n flags)
  unfolding alloc_kernel vmm_pages_to_size space
  kernel_returns place small =
      let virt = s.kernel_heap_current in
      let ends : u64 (virt + u64 (n * 4096)) ≡ virt + n * 4096 = omega (arith, small, place.high) in
      elim (Bool-cases (ltb (kernel_heap_base + kernel_heap_size) (u64 (virt + u64 (n * 4096))))) [
        | inl full ↦
            let (r, returns, out) = given_back after (Keeps-refl kept.valid) in
            (r, rw full returns, out)
        | inr room ↦
            let below : virt + n * 4096 ≤ kernel_heap_base + kernel_heap_size =
              ground (arith, ends) in
            let range : IsRange virt n = record {
              starts = place.aligned;
              fits = omega (arith, below);
              within = omega (arith, below, place.low, place.aligned);
            } in
            let s1 = record after { kernel_heap_current = u64 (virt + vmm_pages_to_size n) } in
            let h1 = zone_space h kept in
            let (r, returns, out) =
              frames_mapped s1 virt
                (record {
                  exists = h1.exists;
                  has_top = h1.has_top;
                  ready = record {
                    zone_valid = h1.ready.zone_valid;
                    base_aligned = h1.ready.base_aligned;
                    addressable = h1.ready.addressable;
                    tree = h1.ready.tree;
                  };
                })
                (Keeps-refl kept.valid) (λ w. refl) range in
            (r, rw room returns, out)
      ]

-- When an allocation for the kernel has all that it needs: frames, room in the kernel heap, pages
-- of it that are not mapped, and pages for the tables.
pub record CanMap (s : Vmm) (ctx n flags : ℕ) : Type 0 where
  pub frame : ℕ
  pub frames : (pmm_alloc s.zone n).0 ≡ some frame
  pub for_kernel : has_flag flags flag_user ≡ false
  pub heap_room : s.kernel_heap_current + n * 4096 ≤ kernel_heap_base + kernel_heap_size
  pub unmapped :
      (w : ℕ) → in_run (page_of s.kernel_heap_current) n (page_of w) ≡ true → space s ctx w ≡ none
  pub tables : 3 * n ≤ pmm_free_pages (pmm_alloc s.zone n).1

-- Allocating `n` pages for the kernel, not 0 and at most 2^34, in a context whose tables are a
-- tree, with the flags of a present page, at a next place of the heap that is in order, returns
-- that place when the physical memory manager has the frames, the heap has room, nothing is mapped
-- at the pages, and three pages are free for each of them after the frames are taken.
pub vmm_alloc_pages-kernel :
    {s : Vmm} {ctx : ℕ} {places : Places} (n flags : ℕ)
    → IsSpace s ctx places
    → n ≢ 0
    → n ≤ 2 ^ 34
    → IsPageFlags flags
    → IsHeapPlace s.kernel_heap_current
    → CanMap s ctx n flags
    → (s' : Vmm) × (vmm_alloc_pages s ctx n flags ≡ some (s.kernel_heap_current, s'))
unfolding vmm_alloc_pages alloc_frames alloc_kernel map_frames vmm_pages_to_size space
vmm_alloc_pages-kernel {s} {ctx} {places} n flags h some_pages small ok place can =
    let guard : ((ctx == 0) || (n == 0)) ≡ false = ground (arith, h.exists) in
    let virt = s.kernel_heap_current in
    let (page, at, inside, _, _, _, _, _) =
      alloc_run h.ready.zone_valid n some_pages can.frame can.frames in
    let ends : u64 (virt + u64 (n * 4096)) ≡ virt + n * 4096 = omega (arith, small, place.high) in
    let room : ltb (kernel_heap_base + kernel_heap_size) (u64 (virt + u64 (n * 4096))) ≡ false =
      ground (arith, ends, can.heap_room) in
    let range : IsRange virt n = record {
      starts = place.aligned;
      fits = omega (arith, can.heap_room);
      within = omega (arith, can.heap_room, place.low, place.aligned);
    } in
    let s1 = record (set_zone s (pmm_alloc s.zone n).1) {
      kernel_heap_current = u64 (virt + vmm_pages_to_size n);
    } in
    let h1 = zone_space h (pmm_alloc-Keeps n h.ready.zone_valid some_pages) in
    let h1' : IsSpace s1 ctx places = record {
      exists = h1.exists;
      has_top = h1.has_top;
      ready = record {
        zone_valid = h1.ready.zone_valid;
        base_aligned = h1.ready.base_aligned;
        addressable = h1.ready.addressable;
        tree = h1.ready.tree;
      };
    } in
    let done : (vmm_map_pages s1 ctx virt can.frame n flags).0.success ≡ true =
      vmm_map_pages-succeeds can.frame flags h1' range ok
        (omega (arith, at, inside, h.ready.addressable)) (omega (arith, at, h.ready.base_aligned))
        can.unmapped can.tables in
    (
      (vmm_map_pages s1 ctx virt can.frame n flags).1,
      rw guard (
          ap (λ o. alloc_frames s ctx n flags (o, (pmm_alloc s.zone n).1)) can.frames
          ∙ rw (can.for_kernel, room, done) refl),
    )

-- Allocating `n` pages, not 0 and at most 2^34, in a context whose tables are a tree, with the
-- flags of a present page and the kernel heap's next place in order, always returns. If the address
-- returned is not 0, the pages from it on are mapped with those flags to frames that were free and
-- follow one another, and no other address changes.
pub vmm_alloc_pages-maps :
    {s : Vmm} {ctx : ℕ} {places : Places} (n flags : ℕ)
    → IsSpace s ctx places
    → n ≢ 0
    → n ≤ 2 ^ 34
    → IsPageFlags flags
    → IsHeapPlace s.kernel_heap_current
    → (r : ℕ × Vmm) × (vmm_alloc_pages s ctx n flags ≡ some r) × Allocated s ctx n flags r
unfolding vmm_alloc_pages alloc_frames
vmm_alloc_pages-maps {s} {ctx} n flags h some_pages small ok place =
    let guard : ((ctx == 0) || (n == 0)) ≡ false = ground (arith, h.exists) in
    rw guard (elim (alloc-cases h.ready.zone_valid n some_pages) [
      | inr (out, _, _) ↦ ((0, s), ap (alloc_frames s ctx n flags) out, λ e. absurd (e refl))
      | inl (page, out, run) ↦
          let success = ap (λ r. r.0) out in
          let taken = ap (λ o. alloc_frames s ctx n flags (o, (pmm_alloc s.zone n).1)) success in
          elim (Bool-cases (has_flag flags flag_user)) [
            | inl user ↦
                let (r, returns, out') = user_returns h n flags _ some_pages ok success in
                (r, taken ∙ rw user returns, out')
            | inr kernel ↦
                let (r, returns, out') =
                  kernel_returns h n flags _ some_pages ok success place small in
                (r, taken ∙ rw kernel returns, out')
          ]
    ])
