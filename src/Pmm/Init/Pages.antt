-- ===== src/Pmm/Init/Pages.antt =====
-- Which pages are free after `pmm_init` of pmm.c, and which are in use.
use box_kernel.Base.{
  ℕ, ◌+◌, ◌-◌, ◌*◌, ◌/◌, ◌%◌, ◌^◌, ◌≤◌, ◌<◌, ◌≡◌, ◌≢◌, refl, sym, ◌∙◌, ap, Bool, true, false, not,
  ◌||◌, ◌⊎◌, inl, inr, none, [], ◌∷◌, leb, Bool-cases, some, List, bit_and, ltb, ◌==◌,
  if◌then◌else◌, arith, u64, every, every_lem, if-both,
}
use box_kernel.Pmm.{Zone, pmm_get_bit}
use box_kernel.Pmm.Bitmap.{IsBitmap}
use box_kernel.Pmm.Alloc.{IsValid}
use box_kernel.Pmm.Init.{
  E820Entry, find_mem_end, free_regions, pmm_reserve_region, start_zone, pmm_init, align_up,
}
use box_kernel.Pmm.Init.Ready.{
  Keeps, free_regions-Keeps, pmm_reserve_region-Keeps, find_mem_end-lt, start_zone-IsValid,
}
use box_kernel.Pmm.Init.Regions.{
  ends_in_any, meets, align_up_value, pmm_reserve_region_lem, free_regions_lem,
  find_mem_end-ends_in,
}

-- every bit of a byte that is full
full_byte : every (λ o. not (bit_and 255 (2 ^ o) == 0)) 0 8 ≡ true
unfolding every
full_byte = refl

-- three guards that do not stop
guards_pass :
    (x y : Zone) (started p q : Bool)
    → started ≡ false
    → p ≡ false
    → q ≡ false
    → (if started then some x else if p then none else if q then none else some y) ≡ some y
guards_pass x y started p q h h' h'' = rw (h, h', h'') refl

module _ (kernel_start kernel_end : ℕ) where
  -- the first page of the bitmap, behind the kernel, and the byte behind its last
  abbrev pub bitmap_start : ℕ
  bitmap_start = (kernel_end + 4095) / 4096 * 4096

  abbrev pub bitmap_end : ℕ → ℕ
  bitmap_end pages = bitmap_start + (pages + 7) / 8

  -- which pages are in use after the start
  abbrev pub taken_at_start : List E820Entry → ℕ → ℕ → Bool
  taken_at_start entries pages j =
      not (ends_in_any entries j)
      || meets kernel_start kernel_end j
      || meets bitmap_start (bitmap_end pages) j

  start_zone_lem :
      (z : Zone) (entries : List E820Entry) (pages j : ℕ)
      → 0x100000 ≤ kernel_start
      → kernel_start ≤ kernel_end
      → kernel_end ≤ 2 ^ 63
      → pages < 2 ^ 52
      → IsBitmap z.bitmap
      → j < pages
      → pmm_get_bit (start_zone kernel_start kernel_end z entries pages bitmap_start) j
        ≡ taken_at_start entries pages j
  unfolding start_zone pmm_get_bit
  start_zone_lem z entries pages j low order high few v h =
      let size = (pages + 7) / 8 in
      let all_used = record z {
        base = 0x100000;
        pages = pages;
        bitmap = λ i. if ltb i size then 255 else z.bitmap i;
      } in
      let full : IsBitmap all_used.bitmap =
        λ i. if-both (λ n. n < 256) (ltb i size) (omega arith) (v i) in
      let freed : Keeps all_used (free_regions all_used entries) =
        free_regions-Keeps entries full in
      let z'' = pmm_reserve_region (free_regions all_used entries) kernel_start kernel_end in
      let kernel : Keeps (free_regions all_used entries) z'' =
        pmm_reserve_region-Keeps kernel_start kernel_end freed.bytes in
      let inside : ltb (j / 8) size ≡ true = ground arith in
      let used : pmm_get_bit all_used j ≡ true =
        ap (λ (b : Bool). not (bit_and (if b then 255 else z.bitmap (j / 8)) (2 ^ (j % 8)) == 0))
          inside
        ∙ every_lem (λ o. not (bit_and 255 (2 ^ o) == 0)) 8 0 (j % 8) full_byte (omega arith)
            (omega arith) in
      let one = free_regions_lem entries all_used j refl full h in
      let two =
        pmm_reserve_region_lem (free_regions all_used entries) freed.base freed.bytes j
          (omega (arith, freed.pages, h)) kernel_start kernel_end low order (omega (arith, high)) in
      let ends : u64 (bitmap_start + size) ≡ bitmap_start + size = omega (arith, few, high) in
      let three =
        pmm_reserve_region_lem z'' (kernel.base ∙ freed.base) kernel.bytes j
          (omega (arith, kernel.pages, freed.pages, h)) bitmap_start (bitmap_start + size)
          (omega (arith, low, order)) (omega arith) (omega (arith, few, high)) in
      ap (λ to. pmm_get_bit (pmm_reserve_region z'' bitmap_start to) j) ends
      ∙ three
      ∙ ground (arith, one, two, used)

  -- the pages from 1 MB to the end of the memory
  abbrev pub pages_of : List E820Entry → ℕ
  pages_of entries = (find_mem_end entries 0 - 0x100000) / 4096

  -- There is no page, or the bitmap reaches beyond 16 MB.
  abbrev pub NoPlace : List E820Entry → Type 0
  NoPlace entries =
      (find_mem_end entries 0 < 0x101000) ⊎ (0x1000000 < bitmap_end (pages_of entries))

  -- what the start leaves in the zone
  abbrev pub Started : List E820Entry → Zone → Type 0
  Started entries z =
      (z.base ≡ 0x100000)
      × (z.pages ≡ pages_of entries)
      × (z.pages ≢ 0)
      × IsValid z
      × ((j : ℕ) → j < z.pages → pmm_get_bit z j ≡ taken_at_start entries z.pages j)
      × ((j : ℕ) → ends_in_any entries j ≡ true → j < z.pages)

  module _ (low : 0x100000 ≤ kernel_start) (order : kernel_start ≤ kernel_end)
      (high : kernel_end ≤ 2 ^ 63) where
    -- The guards: the start stops the kernel, or sets the zone up.
    pmm_init-cases :
        (z : Zone) (entries : List E820Entry)
        → z.initialized ≡ false
        → ((pmm_init kernel_start kernel_end z entries ≡ none) × NoPlace entries)
          ⊎ ((pmm_init kernel_start kernel_end z entries
                ≡ some
                    (start_zone kernel_start kernel_end z entries (pages_of entries) bitmap_start))
              × (pages_of entries ≢ 0))
    unfolding pmm_init find_mem_end
    pmm_init-cases z [] fresh = inl (rw fresh refl, inl (omega arith))
    pmm_init-cases z (e ∷ es) fresh =
        let mem_end = find_mem_end (e ∷ es) 0 in
        let pages = (mem_end - 0x100000) / 4096 in
        let small : mem_end < 2 ^ 64 = find_mem_end-lt (e ∷ es) 0 (omega arith) in
        let place = align_up_value kernel_end (omega (arith, high)) in
        elim (Bool-cases (leb mem_end 0x100000 || (pages == 0))) [
          | inl stop ↦ inl (rw (fresh, stop) refl, inl (ground (arith, stop)))
          | inr pass ↦
              elim (Bool-cases (
                ltb 0x1000000 (u64 (align_up kernel_end 4096 + (pages + 7) / 8))
                || ltb (align_up kernel_end 4096) 0x100000)) [
                  | inl stop ↦
                      inl (rw (fresh, pass, stop) refl, inr (ground (arith, stop, place, small)))
                  | inr through ↦ inr (
                    guards_pass z _ z.initialized _ _ fresh pass through
                        ∙ ap (λ b. some (start_zone kernel_start kernel_end z (e ∷ es) pages b))
                            place,
                    ground (arith, pass),
                  )
                ]
        ]

    -- The start, on a zone that is not yet initialized and that no search has moved, with a kernel
    -- that begins at 1 MB or above and ends by 2^63. It stops the kernel only when `find_mem_end`
    -- puts the end of the memory before the end of the first page behind 1 MB, or the bitmap behind
    -- the kernel would end beyond 16 MB. Otherwise it leaves a valid zone of at least one page, of
    -- all whole pages from 1 MB to that end. A page of the zone is free then exactly when its last
    -- byte is one of a usable region's and it has no byte of the kernel nor of the bitmap. Every
    -- page whose last byte is one of a usable region's is in the zone.
    pub pmm_init_lem :
        (z : Zone) (entries : List E820Entry)
        → z.initialized ≡ false
        → z.last_free ≡ 0
        → IsBitmap z.bitmap
        → ((pmm_init kernel_start kernel_end z entries ≡ none) × NoPlace entries)
          ⊎ ((z' : Zone) × (pmm_init kernel_start kernel_end z entries ≡ some z')
              × Started entries z')
    pmm_init_lem z entries fresh zero_start v = elim (pmm_init-cases z entries fresh) [
      | inl stops ↦ inl stops
      | inr (starts, some_pages) ↦
          let pages = pages_of entries in
          let small = find_mem_end-lt entries 0 (omega arith) in
          let (base, size, valid) =
            start_zone-IsValid kernel_start kernel_end z entries pages bitmap_start zero_start v
              (omega (arith, small)) in
          inr (
            start_zone kernel_start kernel_end z entries pages bitmap_start,
            starts,
            (
              base,
              size,
              (λ e. some_pages (sym size ∙ e)),
              valid,
              (λ j below.
                  start_zone_lem z entries pages j low order high (omega (arith, small)) v
                    (omega (arith, below, size))
                  ∙ ap (λ n. taken_at_start entries n j) (sym size)),
              (λ j ends. omega (arith, size, find_mem_end-ends_in entries 0 j ends)),
            ),
          )
    ]
