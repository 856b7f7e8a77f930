-- ===== src/Pmm/Alloc.antt =====
-- What `pmm_alloc` and `pmm_free` of pmm.c promise: a run of pages is handed out to one caller at a
-- time, and given back whole.
use mathlib.Core.Bool.{false≢true}
use mathlib.Core.Path.{subst}
use native.Mathlib.Decide.{dec_lt}
use box_kernel.Base.{
  ℕ, ◌+◌, ◌-◌, ◌*◌, ◌^◌, ◌≤◌, ◌<◌, ◌≡◌, ◌≢◌, ◌⊎◌, refl, sym, ◌∙◌, ap, inl, inr, Bool, true, false,
  not, ◌&&◌, ◌||◌, none, some, ltb, leb, ◌==◌, arith, u64,
}
use box_kernel.Pmm.{
  Zone, FrameState, pmm_page_size, pmm_get_bit, set_bits, search, pmm_find_free_sequence, claim,
  pmm_alloc,
}
use box_kernel.Pmm.Bitmap.{IsBitmap, set_bits_lem, set_bits_same}
use box_kernel.Pmm.Search.{all_free, all_free-get_bit, Found, NoRun, Outcome, search_lem}

-- An initialized zone, whose pages lie in the address space above address 0.
pub record IsValid (z : Zone) : Type 0 where
  pub ready : z.initialized ≡ true
  pub above_null : 0 < z.base
  pub in_space : z.base + z.pages * pmm_page_size < 2 ^ 64
  pub search_start : z.last_free ≤ z.pages
  pub bytes : IsBitmap z.bitmap

-- whether page `j` is one of the `n` pages from `s` on
abbrev pub in_run : ℕ → ℕ → ℕ → Bool
in_run s n j = leb s j && ltb j (s + n)

module _ {z : Zone} (v : IsValid z) (n : ℕ) (some_pages : n ≢ 0) where
  -- the zone after a search that found the run from `s` on
  abbrev moved : ℕ → Zone
  moved s = record z { last_free = s }

  abbrev SearchOutcome : Type 0
  SearchOutcome =
      ((s : ℕ) × (pmm_find_free_sequence z n ≡ (some s, moved s)) × Found z n 0 z.pages s)
      ⊎ ((pmm_find_free_sequence z n ≡ (none, z))
          × NoRun z n z.last_free z.pages
          × NoRun z n 0 z.last_free)

  search_above : Outcome z n z.last_free z.pages (search z n z.last_free (z.pages - z.last_free) 0)
  search_above =
      let high : z.last_free + (z.pages - z.last_free) ≡ z.pages = omega (arith, v.search_start) in
      let out =
        search_lem z n (z.pages - z.last_free) z.last_free 0 z.last_free (omega arith) (omega arith)
          (omega (arith, v.search_start, v.in_space)) (λ j a b. absurd (omega arith)) in
      rw high at out

  search_below : Outcome z n 0 z.last_free (search z n 0 z.last_free 0)
  search_below =
      let high : 0 + z.last_free ≡ z.last_free = omega arith in
      let out =
        search_lem z n z.last_free 0 0 0 (omega arith) (omega arith)
          (omega (arith, v.search_start, v.in_space)) (λ j a b. absurd (omega arith)) in
      rw high at out

  find-cases : SearchOutcome
  unfolding pmm_find_free_sequence
  find-cases = elim search_above [
    | inl (s, found, run) ↦ inl (
      s,
      rw (found, pmm_find_free_sequence) refl,
      record { above = omega arith; below = run.below; is_free = run.is_free },
    )
    | inr (lost, no_run) ↦ elim search_below [
      | inl (s, found, run) ↦ inl (
        s,
        rw (lost, found, pmm_find_free_sequence) refl,
        record {
          above = omega arith;
          below = omega (arith, run.below, v.search_start);
          is_free = run.is_free;
        },
      )
      | inr (lost', no_run') ↦ inr (rw (lost, lost', pmm_find_free_sequence) refl, no_run, no_run')
    ]
  ]

  -- the zone after an allocation of that run
  abbrev pub taken : ℕ → Zone
  taken s = set_bits (moved s) s n FrameState.used

  abbrev pub AllocOutcome : Type 0
  AllocOutcome =
      ((s : ℕ) × (pmm_alloc z n ≡ (some (z.base + s * pmm_page_size), taken s))
        × Found z n 0 z.pages s)
      ⊎ ((pmm_alloc z n ≡ (none, z)) × NoRun z n z.last_free z.pages × NoRun z n 0 z.last_free)

  pub alloc-cases : AllocOutcome
  unfolding pmm_alloc claim
  alloc-cases =
      let guard : ((n == 0) || not z.initialized) ≡ false = ground (arith, v.ready) in
      elim find-cases [
        | inl (s, found, run) ↦
            let address : u64 (z.base + s * pmm_page_size) ≡ z.base + s * pmm_page_size =
              omega (arith, v.in_space, run.below) in
            inl (s, rw guard (ap (claim n) found ∙ ap (λ a. (some a, taken s)) address), run)
        | inr (lost, no_run, no_run') ↦ inr (rw guard (ap (claim n) lost), no_run, no_run')
      ]

  taken_bits : (s j : ℕ) → pmm_get_bit (taken s) j ≡ (in_run s n j || pmm_get_bit z j)
  unfolding pmm_get_bit
  taken_bits s j = (set_bits_lem n s j (moved s) FrameState.used v.bytes).1 ∙ ground arith

  taken-IsValid : (s : ℕ) → s + n ≤ z.pages → IsValid (taken s)
  taken-IsValid s h =
      let (base, pages, last_free, ready) = set_bits_same n s (moved s) FrameState.used in
      record {
        ready = ready ∙ v.ready;
        above_null = omega (arith, base, v.above_null);
        in_space = omega (arith, base, pages, v.in_space);
        search_start = omega (arith, last_free, pages);
        bytes = (set_bits_lem n s 0 (moved s) FrameState.used v.bytes).0;
      }

  -- what an allocation that succeeds does, with one run for all pages
  pub alloc_run :
      (addr : ℕ)
      → (pmm_alloc z n).0 ≡ some addr
      → let z' = (pmm_alloc z n).1 in
        (s : ℕ) × (addr ≡ z.base + s * pmm_page_size)
        × (s + n ≤ z.pages)
        × (all_free z s n ≡ true)
        × (z'.base ≡ z.base)
        × (z'.pages ≡ z.pages)
        × ((j : ℕ) → pmm_get_bit z' j ≡ (in_run s n j || pmm_get_bit z j))
        × IsValid z'
  alloc_run addr h = elim alloc-cases [
    | inl (s, out, run) ↦
        let after : (pmm_alloc z n).1 ≡ taken s = ap (λ r. r.1) out in
        let (base, pages, _, _) = set_bits_same n s (moved s) FrameState.used in
        (
          s,
          ground (arith, ap (λ r. r.0) out, h),
          run.below,
          run.is_free,
          ap (λ (z' : Zone). z'.base) after ∙ base,
          ap (λ (z' : Zone). z'.pages) after ∙ pages,
          λ j. ap (λ z'. pmm_get_bit z' j) after ∙ taken_bits s j,
          subst IsValid (sym after) (taken-IsValid s run.below),
        )
    | inr (out, _, _) ↦ absurd (ground (arith, ap (λ r. r.0) out))
  ]

  -- An allocation from a valid zone, of `n` pages and not of 0, that succeeds hands out a run of
  -- pages inside the zone that were all free. They are in use afterwards, every other page is as it
  -- was, and the zone stays valid.
  pub pmm_alloc_lem :
      (addr j : ℕ)
      → (pmm_alloc z n).0 ≡ some addr
      → let z' = (pmm_alloc z n).1 in
        (s : ℕ) × (addr ≡ z.base + s * pmm_page_size)
        × (s + n ≤ z.pages)
        × (all_free z s n ≡ true)
        × (pmm_get_bit z' j ≡ (in_run s n j || pmm_get_bit z j))
        × IsValid z'
  pmm_alloc_lem addr j h =
      let (s, at, inside, free, _, _, bits, valid) = alloc_run addr h in
      (s, at, inside, free, bits j, valid)

  -- An allocation from a valid zone, of `n` pages and not of 0, succeeds when a free run of `n`
  -- pages lies wholly at or after the place where the last search ended, or wholly before it.
  pub pmm_alloc-succeeds :
      (s : ℕ)
      → ((z.last_free ≤ s) × (s + n ≤ z.pages)) ⊎ (s + n ≤ z.last_free)
      → all_free z s n ≡ true
      → (addr : ℕ) × ((pmm_alloc z n).0 ≡ some addr)
  pmm_alloc-succeeds s place free = elim alloc-cases [
    | inl (found, out, run) ↦ (z.base + found * pmm_page_size, ap (λ r. r.0) out)
    | inr (out, above, below) ↦ absurd (clash place above below)
  ]
    where
      clash :
          ((z.last_free ≤ s) × (s + n ≤ z.pages)) ⊎ (s + n ≤ z.last_free)
          → NoRun z n z.last_free z.pages
          → NoRun z n 0 z.last_free
          → ⊥
      clash (inl (low, high)) above below =
          let (j, a, b, used) = above s low high in
          false≢true (sym (all_free-get_bit z n s j free a b) ∙ used)
      clash (inr high) above below =
          let (j, a, b, used) = below s (omega arith) high in
          false≢true (sym (all_free-get_bit z n s j free a b) ∙ used)

-- Two allocations in a row from a valid zone, of `n` and of `m` pages, neither 0, that both succeed
-- hand out memory that does not overlap.
pub pmm_alloc-disjoint :
    {z : Zone} (n m a b : ℕ)
    → IsValid z
    → n ≢ 0
    → m ≢ 0
    → (pmm_alloc z n).0 ≡ some a
    → (pmm_alloc (pmm_alloc z n).1 m).0 ≡ some b
    → (a + n * pmm_page_size ≤ b) ⊎ (b + m * pmm_page_size ≤ a)
pmm_alloc-disjoint {z} n m a b v hn hm first second =
    let (s, at, _, _, base, _, bits, valid) = alloc_run v n hn a first in
    let (t, at', _, free, _, _, _, _) = alloc_run valid m hm b second in
    elim (dec_lt t (s + n)) [
      | no behind ↦ inl (omega (arith, at, at', base))
      | yes before ↦ elim (dec_lt s (t + m)) [
        | no behind ↦ inr (omega (arith, at, at', base))
        | yes overlap ↦ absurd (elim (dec_lt s t) [
          | yes later ↦ false≢true (
              sym (all_free-get_bit _ m t t free (omega arith) (omega arith))
              ∙ bits t
              ∙ ground arith)
          | no earlier ↦ false≢true (
              sym (all_free-get_bit _ m t s free (omega arith) (omega arith))
              ∙ bits s
              ∙ ground arith)
        ])
      ]
    ]
