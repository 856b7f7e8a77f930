-- ===== src/Pmm/Init/Regions.antt =====
-- What the loops of `pmm_init` of pmm.c over the memory map, and `pmm_reserve_region`, do to the
-- pages of the zone.
use box_kernel.Base.{
  ℕ, ◌+◌, ◌-◌, ◌*◌, ◌/◌, ◌%◌, ◌^◌, ◌≤◌, ◌<◌, ◌≡◌, refl, ◌∙◌, ap, inl, inr, Bool, true, false, not,
  ◌&&◌, ◌||◌, List, [], ◌∷◌, bit_and, ltb, leb, if◌then◌else◌, arith, u64, sub64, Bool-cases,
  bit_and-mask, bit_and_split, bit_and-none,
}
use box_kernel.Pmm.{Zone, FrameState, pmm_page_size, pmm_get_bit}
use box_kernel.Pmm.Bitmap.{IsBitmap, set_bits_lem}
use box_kernel.Pmm.Init.{
  E820Entry, find_mem_end, free_region, free_regions, pmm_reserve_region, is_usable, align_up,
  align_down,
}
use box_kernel.Pmm.Init.Ready.{free_region-Keeps}

-- the first byte of page `j`, and the byte behind its last
abbrev pub page_start : ℕ → ℕ
page_start j = 0x100000 + j * 4096

abbrev pub page_end : ℕ → ℕ
page_end j = 0x100000 + (j + 1) * 4096

-- The page ends in the usable region: its last byte is one of the region's.
abbrev pub ends_in : E820Entry → ℕ → Bool
ends_in e j = is_usable e && ltb e.base (page_end j) && leb (page_end j) (u64 (e.base + e.length))

unfoldable pub ends_in_any : List E820Entry → ℕ → Bool
ends_in_any [] j = false
ends_in_any (e ∷ es) j = ends_in e j || ends_in_any es j

-- The page has a byte of those from `from` on and before `to`.
abbrev pub meets : ℕ → ℕ → ℕ → Bool
meets from to j = ltb from (page_end j) && ltb (page_start j) to

align_down_value : (a : ℕ) → a < 2 ^ 64 → align_down a pmm_page_size ≡ a / 4096 * 4096
align_down_value a h = omega (
  arith,
  bit_and_split 12 a (2 ^ 64 - 4096),
  bit_and-mask 52 (a / 2 ^ 12),
  bit_and-none (a % 2 ^ 12),
)

pub align_up_value :
    (a : ℕ) → a + 4096 ≤ 2 ^ 64 → align_up a pmm_page_size ≡ (a + 4095) / 4096 * 4096
align_up_value a h =
    let whole : u64 (a + 4096 - 1) ≡ a + 4095 = omega (arith, h) in
    ap (λ b. bit_and b (2 ^ 64 - 4096)) whole ∙ align_down_value (a + 4095) (omega (arith, h))

module _ (z : Zone) (at : z.base ≡ 0x100000) (v : IsBitmap z.bitmap) (j : ℕ) (h : j < z.pages) where
  free_region_lem :
      (e : E820Entry) → pmm_get_bit (free_region z e) j ≡ (pmm_get_bit z j && not (ends_in e j))
  unfolding free_region
  free_region_lem e = elim (Bool-cases (is_usable e)) [
    | inr unusable ↦ rw unusable (ground (arith, unusable))
    | inl usable ↦
        let end' = u64 (e.base + e.length) in
        let start = if ltb e.base z.base then z.base else e.base in
        let first = (start - z.base) / pmm_page_size in
        let last = (end' - z.base) / pmm_page_size in
        let stop = if ltb z.pages last then z.pages else last in
        let (_, marked) = set_bits_lem (stop - first) first j z FrameState.free v in
        rw usable (ground (arith, at, h, marked))
  ]

  pub pmm_reserve_region_lem :
      (from to : ℕ)
      → 0x100000 ≤ from
      → from ≤ to
      → to + 4096 ≤ 2 ^ 64
      → pmm_get_bit (pmm_reserve_region z from to) j ≡ (pmm_get_bit z j || meets from to j)
  unfolding pmm_reserve_region
  pmm_reserve_region_lem from to low order small =
      let base = align_down from pmm_page_size in
      let end' = align_up to pmm_page_size in
      let base_value = align_down_value from (omega (arith, order, small)) in
      let end_value = align_up_value to small in
      let first = sub64 base z.base / pmm_page_size in
      let last = sub64 end' z.base / pmm_page_size in
      let stop = if ltb z.pages last then z.pages else last in
      let (_, marked) = set_bits_lem (stop - first) first j z FrameState.reserved v in
      ground (arith, at, h, base_value, end_value, marked)

pub free_regions_lem :
    (es : List E820Entry) (z : Zone) (j : ℕ)
    → z.base ≡ 0x100000
    → IsBitmap z.bitmap
    → j < z.pages
    → pmm_get_bit (free_regions z es) j ≡ (pmm_get_bit z j && not (ends_in_any es j))
unfolding free_regions ends_in_any
free_regions_lem [] z j at v h = ground arith
free_regions_lem (e ∷ es) z j at v h =
    let keeps = free_region-Keeps e v in
    let first = free_region_lem z at v j h e in
    let rest =
      free_regions_lem es (free_region z e) j (keeps.base ∙ at) keeps.bytes
        (omega (arith, keeps.pages, h)) in
    rest
    ∙ ap (λ b. b && not (ends_in_any es j)) first
    ∙ and-not-or (pmm_get_bit z j) (ends_in e j) (ends_in_any es j)
  where
    and-not-or : (a b c : Bool) → ((a && not b) && not c) ≡ (a && not (b || c))
    and-not-or true true c = refl
    and-not-or true false c = refl
    and-not-or false b c = refl

-- The memory's end lies behind every page that ends in a usable region.
find_mem_end-le : (es : List E820Entry) (m : ℕ) → m ≤ find_mem_end es m
unfolding find_mem_end
find_mem_end-le [] m = omega arith
find_mem_end-le (e ∷ es) m =
    let rest =
      find_mem_end-le es
        (if is_usable e && ltb m (u64 (e.base + e.length)) then u64 (e.base + e.length) else m) in
    ground (arith, rest)

pub find_mem_end-ends_in :
    (es : List E820Entry) (m j : ℕ) → ends_in_any es j ≡ true → page_end j ≤ find_mem_end es m
unfolding find_mem_end ends_in_any
find_mem_end-ends_in [] m j h = absurd (ground (arith, h))
find_mem_end-ends_in (e ∷ es) m j h =
    let region_end = u64 (e.base + e.length) in
    let m' = if is_usable e && ltb m region_end then region_end else m in
    elim (Bool-cases (ends_in e j)) [
      | inl here ↦ let rest = find_mem_end-le es m' in ground (arith, rest, here)
      | inr elsewhere ↦
          let later : ends_in_any es j ≡ true = ground (arith, h, elsewhere) in
          find_mem_end-ends_in es m' j later
    ]
