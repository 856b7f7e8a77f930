-- ===== src/Pmm/Init/Ready.antt =====
-- What `pmm_init` of pmm.c leaves: a zone that allocations can start from.
use box_kernel.Base.{
  ℕ, ◌+◌, ◌*◌, ◌/◌, ◌^◌, ◌<◌, ◌≡◌, refl, ◌∙◌, ◌&&◌, List, [], ◌∷◌, ltb, if◌then◌else◌, if-both,
  arith, u64,
}
use box_kernel.Pmm.{Zone, FrameState, pmm_page_size, set_bits}
use box_kernel.Pmm.Bitmap.{IsBitmap, set_bits_lem, set_bits_same}
use box_kernel.Pmm.Alloc.{IsValid}
use box_kernel.Pmm.Init.{
  E820Entry, find_mem_end, free_region, free_regions, pmm_reserve_region, start_zone, is_usable,
}

pub find_mem_end-lt : (es : List E820Entry) (m : ℕ) → m < 2 ^ 64 → find_mem_end es m < 2 ^ 64
unfolding find_mem_end
find_mem_end-lt [] m h = h
find_mem_end-lt (e ∷ es) m h =
    find_mem_end-lt es _
      (if-both (λ n. n < 2 ^ 64) (is_usable e && ltb m (u64 (e.base + e.length))) (omega arith) h)

-- what the loops over the regions keep
pub record Keeps (z z' : Zone) : Type 0 where
  pub base : z'.base ≡ z.base
  pub pages : z'.pages ≡ z.pages
  pub last_free : z'.last_free ≡ z.last_free
  pub bytes : IsBitmap z'.bitmap

pub set_bits-Keeps :
    {z : Zone} (n first : ℕ) (state : FrameState)
    → IsBitmap z.bitmap
    → Keeps z (set_bits z first n state)
set_bits-Keeps {z} n first state v =
    let (base, pages, last_free, _) = set_bits_same n first z state in
    record {
      base = base;
      pages = pages;
      last_free = last_free;
      bytes = (set_bits_lem n first 0 z state v).0;
    }

Keeps-refl : {z : Zone} → IsBitmap z.bitmap → Keeps z z
Keeps-refl v = record { base = refl; pages = refl; last_free = refl; bytes = v }

Keeps-trans : {a b c : Zone} → Keeps a b → Keeps b c → Keeps a c
Keeps-trans p q = record {
  base = q.base ∙ p.base;
  pages = q.pages ∙ p.pages;
  last_free = q.last_free ∙ p.last_free;
  bytes = q.bytes;
}

pub free_region-Keeps : {z : Zone} (e : E820Entry) → IsBitmap z.bitmap → Keeps z (free_region z e)
unfolding free_region
free_region-Keeps {z} e v =
    if-both (Keeps z) _ (Keeps-refl v) (set_bits-Keeps _ _ FrameState.free v)

pub free_regions-Keeps :
    (es : List E820Entry) {z : Zone} → IsBitmap z.bitmap → Keeps z (free_regions z es)
unfolding free_regions
free_regions-Keeps [] v = Keeps-refl v
free_regions-Keeps (e ∷ es) v =
    let first = free_region-Keeps e v in Keeps-trans first (free_regions-Keeps es first.bytes)

pub pmm_reserve_region-Keeps :
    {z : Zone} (from to : ℕ) → IsBitmap z.bitmap → Keeps z (pmm_reserve_region z from to)
unfolding pmm_reserve_region
pmm_reserve_region-Keeps {z} from to v =
    if-both (Keeps z) _ (Keeps-refl v) (set_bits-Keeps _ _ FrameState.reserved v)

module _ (kernel_start kernel_end : ℕ) where
  pub start_zone-IsValid :
      (z : Zone) (entries : List E820Entry) (pages bitmap_at : ℕ)
      → z.last_free ≡ 0
      → IsBitmap z.bitmap
      → 0x100000 + pages * pmm_page_size < 2 ^ 64
      → let z' = start_zone kernel_start kernel_end z entries pages bitmap_at in
        (z'.base ≡ 0x100000) × (z'.pages ≡ pages) × IsValid z'
  unfolding start_zone
  start_zone-IsValid z entries pages bitmap_at zero_start v small =
      let size = (pages + 7) / 8 in
      let full : (i : ℕ) → (if ltb i size then 255 else z.bitmap i) < 256 =
        λ i. if-both (λ n. n < 256) (ltb i size) (omega arith) (v i) in
      let freed = free_regions-Keeps entries full in
      let kernel = pmm_reserve_region-Keeps kernel_start kernel_end freed.bytes in
      let all =
        Keeps-trans (Keeps-trans freed kernel)
          (pmm_reserve_region-Keeps bitmap_at (u64 (bitmap_at + size)) kernel.bytes) in
      (
        all.base,
        all.pages,
        record {
          ready = refl;
          above_null = omega (arith, all.base);
          in_space = omega (arith, all.base, all.pages, small);
          search_start = omega (arith, all.last_free, zero_start);
          bytes = all.bytes;
        },
      )
