-- ===== src/Pmm/Free.antt =====
-- What `pmm_free` of pmm.c promises: it takes back a run of pages that are all in use, and stops
-- the kernel on a page that is free already.
use native.Mathlib.Decide.{dec_lt}
use box_kernel.Base.{
  ℕ, zero, suc, ◌+◌, ◌-◌, ◌*◌, ◌/◌, ◌≤◌, ◌<◌, ◌≡◌, ◌≢◌, refl, sym, ◌∙◌, ap, inl, inr, true, false,
  not, ◌&&◌, ◌||◌, none, some, ltb, leb, ◌==◌, if◌then◌else◌, Bool-cases, arith, u64,
}
use box_kernel.Pmm.{
  Zone, FrameState, pmm_page_size, pmm_get_bit, set_bits, pmm_alloc, any_free, pmm_free,
}
use box_kernel.Pmm.Bitmap.{set_bits_lem, set_bits_same}
use box_kernel.Pmm.Search.{all_free, all_free-get_bit}
use box_kernel.Pmm.Alloc.{IsValid, in_run, alloc_run}

-- a run whose pages are all in use
pub in_use :
    (z : Zone) (n s : ℕ)
    → ((j : ℕ) → s ≤ j → j < s + n → pmm_get_bit z j ≡ true)
    → any_free z s n ≡ false
unfolding any_free
in_use z zero s h = refl
in_use z (suc n) s h =
    rw
      (
        h s (omega arith) (omega arith),
        in_use z n (s + 1) (λ j a b. h j (omega arith) (omega arith)),
      )
      refl

in_use-get_bit :
    (z : Zone) (n s j : ℕ) → any_free z s n ≡ false → s ≤ j → j < s + n → pmm_get_bit z j ≡ true
unfolding any_free
in_use-get_bit z zero s j h low high = absurd (omega arith)
in_use-get_bit z (suc n) s j h low high = elim (dec_lt s j) [
  | yes later ↦ in_use-get_bit z n (s + 1) j (ground arith) (omega arith) (omega arith)
  | no same ↦ let here : s ≡ j = omega arith in ap (pmm_get_bit z) (sym here) ∙ ground arith
]

-- a free page at the front of a run
front_free : (z : Zone) (n s : ℕ) → n ≢ 0 → pmm_get_bit z s ≡ false → any_free z s n ≡ true
unfolding any_free
front_free z zero s some_pages h = absurd (some_pages refl)
front_free z (suc n) s some_pages h = rw h refl

module _ {z : Zone} (v : IsValid z) (s n : ℕ) (some_pages : n ≢ 0) (inside : s + n ≤ z.pages) where
  abbrev pub address : ℕ
  address = z.base + s * pmm_page_size

  -- the zone after the run has been given back
  abbrev cleared : Zone
  cleared = set_bits z s n FrameState.free

  abbrev given_back : Zone
  given_back = if ltb s z.last_free then record cleared { last_free = s } else cleared

  -- The address passes the checks, and leads back to the run.
  free_run : pmm_free z address n ≡ (
      if any_free z s n
      then none
      else some (if ltb s cleared.last_free then record cleared { last_free = s } else cleared))
  unfolding pmm_free
  free_run =
      let named : ((address == 0) || (n == 0) || not z.initialized) ≡ false =
        ground (arith, v.ready, v.above_null) in
      let top : u64 (z.base + z.pages * pmm_page_size) ≡ z.base + z.pages * pmm_page_size =
        omega (arith, v.in_space) in
      let managed : (ltb address z.base || leb (z.base + z.pages * pmm_page_size) address) ≡ false =
        ground (arith, inside) in
      let first : (address - z.base) / pmm_page_size ≡ s = omega arith in
      let count : u64 (s + n) - s ≡ n = omega (arith, v.in_space, inside) in
      rw (named, top, managed, first, count) refl

  -- Giving back to a valid zone a run of pages inside it, not empty and all in use, succeeds: the
  -- pages of the run are free afterwards, every other page is as it was, and the zone stays valid.
  pub pmm_free_lem :
      (j : ℕ)
      → any_free z s n ≡ false
      → (z' : Zone) × (pmm_free z address n ≡ some z')
        × (pmm_get_bit z' j ≡ (not (in_run s n j) && pmm_get_bit z j))
        × IsValid z'
  unfolding pmm_get_bit
  pmm_free_lem j used =
      let (base, pages, last_free, ready) = set_bits_same n s z FrameState.free in
      let (bytes, bits) = set_bits_lem n s j z FrameState.free v.bytes in
      let bits' : pmm_get_bit cleared j ≡ (not (in_run s n j) && pmm_get_bit z j) =
        bits ∙ ground arith in
      elim (Bool-cases (ltb s cleared.last_free)) [
        | inl lower ↦ (
          record cleared { last_free = s },
          free_run ∙ rw (used, lower) refl,
          bits',
          record {
            ready = ready ∙ v.ready;
            above_null = omega (arith, base, v.above_null);
            in_space = omega (arith, base, pages, v.in_space);
            search_start = omega (arith, pages, inside);
            bytes = bytes;
          },
        )
        | inr higher ↦ (
          cleared,
          free_run ∙ rw (used, higher) refl,
          bits',
          record {
            ready = ready ∙ v.ready;
            above_null = omega (arith, base, v.above_null);
            in_space = omega (arith, base, pages, v.in_space);
            search_start = omega (arith, pages, last_free, v.search_start);
            bytes = bytes;
          },
        )
      ]

  -- Giving back to a valid zone a run inside it, not empty, whose first page is free stops the
  -- kernel.
  pub pmm_free-double : pmm_get_bit z s ≡ false → pmm_free z address n ≡ none
  pmm_free-double h = free_run ∙ rw (front_free z n s some_pages h) refl

-- What an allocation of one page or more from a valid zone has handed out can be given back to the
-- zone it left, and then every page is as it was before and the zone is valid.
pub pmm_free-pmm_alloc :
    {z : Zone} (n addr j : ℕ)
    → IsValid z
    → n ≢ 0
    → (pmm_alloc z n).0 ≡ some addr
    → (z' : Zone) × (pmm_free (pmm_alloc z n).1 addr n ≡ some z')
      × (pmm_get_bit z' j ≡ pmm_get_bit z j)
      × IsValid z'
pmm_free-pmm_alloc {z} n addr j v some_pages h =
    let z' = (pmm_alloc z n).1 in
    let (s, at, inside, free, base, pages, bits, valid) = alloc_run v n some_pages addr h in
    let inside' : s + n ≤ z'.pages = omega (arith, inside, pages) in
    let all_used : any_free z' s n ≡ false =
      in_use z' n s (λ i a b. bits i ∙ ground (arith, a, b)) in
    let (z'', freed, after, valid'') = pmm_free_lem valid s n some_pages inside' j all_used in
    let same_address : addr ≡ address valid s n some_pages inside' = omega (arith, at, base) in
    (
      z'',
      ap (λ a. pmm_free z' a n) same_address ∙ freed,
      after ∙ restored z' s free (bits j),
      valid'',
    )
  where
    restored :
        (z' : Zone) (s : ℕ)
        → all_free z s n ≡ true
        → pmm_get_bit z' j ≡ (in_run s n j || pmm_get_bit z j)
        → (not (in_run s n j) && pmm_get_bit z' j) ≡ pmm_get_bit z j
    restored z' s free bit = elim (Bool-cases (in_run s n j)) [
      | inl inside ↦ rw inside (sym (all_free-get_bit z n s j free (ground arith) (ground arith)))
      | inr outside ↦ rw (bit, outside) refl
    ]
