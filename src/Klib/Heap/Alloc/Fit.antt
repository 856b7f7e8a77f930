-- ===== src/Klib/Heap/Alloc/Fit.antt =====
-- The search of `kmalloc` for a block, and what it means for `kfree`: klib.c.
use box_kernel.Base.{
  ℕ, ◌+◌, ◌-◌, ◌^◌, ◌≤◌, ◌<◌, ◌≡◌, ◌≢◌, ◌⊎◌, inl, inr, refl, sym, ◌∙◌, ap, true, false, Option,
  none, some, List, [], ◌∷◌, ltb, leb, ◌==◌, ==_iff, ne→==, Bool-cases, update_self, arith,
}
use box_kernel.Klib.Heap.{
  header_size, block_alignment, pool_size, magic_number, align_up, Heap, take_block, pass_over,
  mem_init, first_fit, kmalloc, kfree,
}
use box_kernel.Klib.Heap.Spaced.{end_of, Spaced, total}
use box_kernel.Klib.Heap.Free.{IsHeap, IsTaken, kfree_lem}
use box_kernel.Klib.Heap.Alloc.{Marked, TooSmall, Apart, Taken, pass_over-Taken}
use box_kernel.Klib.Heap.Alloc.Take.{take_whole-Taken, take_split-Taken}

take_block-Taken :
    (h : Heap) (lo c : ℕ) (cs : List ℕ) (hi size : ℕ)
    → Spaced h.sizes lo (c ∷ cs) hi
    → Marked h.magics (c ∷ cs)
    → size ≤ h.sizes c
    → Taken h lo (c ∷ cs) hi size c (take_block h size c cs)
take_block-Taken h lo c cs hi size s marks enough =
    elim (Bool-cases (ltb (size + header_size + block_alignment) (h.sizes c))) [
      | inl split ↦ take_split-Taken h lo c cs hi size s marks split
      | inr whole ↦ take_whole-Taken h lo c cs hi size s marks enough whole
    ]

-- The search returns a block that is large enough, or every block is too small.
Fits : Heap → ℕ → List ℕ → ℕ → ℕ → Option (ℕ × Heap) → Type 0
Fits h lo cs hi size o =
    ((b : ℕ) × ((h' : Heap) × (o ≡ some (b + header_size, h')) × Taken h lo cs hi size b h'))
    ⊎ ((o ≡ none) × TooSmall h.sizes size cs)

first_fit-Fits :
    (h : Heap) (lo : ℕ) (cs : List ℕ) (hi size : ℕ)
    → Spaced h.sizes lo cs hi
    → Marked h.magics cs
    → Fits h lo cs hi size (first_fit h size cs)
unfolding first_fit Fits
first_fit-Fits h lo [] hi size s marks = inr (refl, tt)
first_fit-Fits h lo (c ∷ cs) hi size (above, fits, rest) (mark, marks) =
    let marked : (h.magics c == magic_number) ≡ true = (==_iff (h.magics c) magic_number).1 mark in
    elim (Bool-cases (leb size (h.sizes c))) [
      | inl enough ↦ inl (
        c,
        (
          take_block h size c cs,
          rw marked (rw enough refl),
          take_block-Taken h lo c cs hi size (above, fits, rest) (mark, marks)
              (ground (arith, enough)),
        ),
      )
      | inr small ↦
          let small' : h.sizes c < size = ground (arith, small) in
          elim (first_fit-Fits h (end_of h.sizes c + 1) cs hi size rest marks) [
            | inl (b, (h', e, t)) ↦ inl (
              b,
              (
                record h' { free = c ∷ h'.free },
                rw marked (rw small (ap (pass_over c) e)),
                pass_over-Taken h lo c cs hi size b h' above fits mark t,
              ),
            )
            | inr (e, all_small) ↦
                inr (rw marked (rw small (ap (pass_over c) e)), (small', all_small))
          ]
    ]

-- the block after the rounding is no smaller than what was asked for, and smaller than that by 16
pub align_up-ge :
    (size : ℕ)
    → size ≤ 2 ^ 64 - block_alignment
    → (size ≤ align_up size) × (align_up size < size + block_alignment)
align_up-ge size h = omega (arith, h)

-- An allocation of some bytes, few enough that their rounding does not overflow, either returns a
-- block of at least that size or finds every free block too small, and then panics. A block that is
-- returned lies in the pool, overlaps no free block and no block that had been given out before,
-- which all keep their sizes. The free list stays in order and has exactly the block's bytes less.
pub kmalloc_lem :
    (pool : ℕ) (h : Heap) (size : ℕ)
    → IsHeap pool h
    → Marked h.magics h.free
    → size ≢ 0
    → size ≤ 2 ^ 64 - block_alignment
    → ((b : ℕ) × ((h' : Heap) × (kmalloc h size ≡ some (b + header_size, h'))
          × (size ≤ h'.sizes b)
          × IsHeap pool h'
          × Marked h'.magics h'.free
          × IsTaken pool h' b
          × (total h.sizes h.free ≡ header_size + h'.sizes b + total h'.sizes h'.free)
          × ((a : ℕ)
              → IsTaken pool h a
              → IsTaken pool h' a × (h'.sizes a ≡ h.sizes a) × Apart h'.sizes a b)))
      ⊎ ((kmalloc h size ≡ none) × TooSmall h.sizes (align_up size) h.free)
unfolding kmalloc Fits
kmalloc_lem pool h size heap marks some_size small =
    let hi = pool + pool_size in
    let positive : (size == 0) ≡ false = ne→== size 0 some_size in
    elim (first_fit-Fits h pool h.free hi (align_up size) heap.spaced marks) [
      | inl (b, (h', e, t)) ↦ inl (
        b,
        (
          h',
          rw positive e,
          omega (arith, t.enough, (align_up-ge size small).0),
          record { spaced = t.spaced; in_space = heap.in_space },
          t.all_marked,
          record { above = t.above; fits = t.fits; marked = t.marked; clear = t.clear },
          t.sum,
          λ a taken.
              let (clear, own, apart) = t.others a taken.clear in
              (
                record {
                  above = taken.above;
                  fits = omega (arith, own, taken.fits);
                  marked = t.keeps_mark a taken.marked;
                  clear = clear;
                },
                own,
                apart,
              ),
        ),
      )
      | inr (e, all_small) ↦ inr (rw positive e, all_small)
    ]

-- The pool as `mem_init` leaves it is one free block.
pub mem_init-IsHeap :
    (pool : ℕ) (h : Heap)
    → pool + pool_size ≤ 2 ^ 64
    → let h' = mem_init pool h in
      IsHeap pool h' × Marked h'.magics h'.free × (total h'.sizes h'.free ≡ pool_size)
unfolding mem_init
mem_init-IsHeap pool h in_space =
    let size = update_self h.sizes pool (pool_size - header_size) in
    (
      record { spaced = (omega arith, omega (arith, size), tt); in_space = in_space },
      (update_self h.magics pool magic_number, tt),
      omega (arith, size),
    )

-- An allocation that does not panic, of some bytes and few enough that their rounding does not
-- overflow, can be freed: the free list is in order again, and has as many bytes as before.
kfree-kmalloc :
    (pool : ℕ) (h : Heap) (size : ℕ)
    → IsHeap pool h
    → Marked h.magics h.free
    → size ≢ 0
    → size ≤ 2 ^ 64 - block_alignment
    → ((p : ℕ) × ((h' h'' : Heap) × (kmalloc h size ≡ some (p, h'))
          × (kfree pool h' p ≡ some h'')
          × IsHeap pool h''
          × (total h''.sizes h''.free ≡ total h.sizes h.free)))
      ⊎ ((kmalloc h size ≡ none) × TooSmall h.sizes (align_up size) h.free)
kfree-kmalloc pool h size heap marks some_size small =
    elim (kmalloc_lem pool h size heap marks some_size small) [
      | inr panics ↦ inr panics
      | inl (b, (h', e, enough, heap', marks', taken, sum, others)) ↦
          let (h'', e', heap'', sum') = kfree_lem pool h' b heap' taken in
          inl (b + header_size, (h', h'', e, e', heap'', sum' ∙ sym sum))
    ]
