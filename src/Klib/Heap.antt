-- ===== src/Klib/Heap.antt =====
-- The kernel's heap: src/lib/kernel/klib.c, `mem_init`, `kmalloc` and `kfree`. `sizes` and `magics`
-- are the headers of the blocks by address, and `free` the addresses along `next` from `free_list`
-- on. A call that panics has no result. The pool is the array at `pool`; the lock is left out: a
-- call is one step.
pub mod Spaced
pub mod Free
pub mod Alloc
use box_kernel.Base.{
  ℕ, zero, suc, ◌+◌, ◌-◌, ◌%◌, ◌^◌, Bool, true, false, not, ◌&&◌, ◌||◌, Option, none, some, List,
  [], ◌∷◌, ltb, leb, ◌==◌, if◌then◌else◌, update,
}

-- KLIB_MEMORY_POOL_SIZE, KLIB_BLOCK_ALIGNMENT, KLIB_MAGIC_NUMBER and `sizeof(mem_block_t)`
abbrev pub pool_size : ℕ
pool_size = 1048576

abbrev pub block_alignment : ℕ
block_alignment = 16

abbrev pub magic_number : ℕ
magic_number = 0xDEADBEEF

abbrev pub header_size : ℕ
header_size = 24

pub record Heap : Type 0 where
  pub sizes : ℕ → ℕ
  pub magics : ℕ → ℕ
  pub free : List ℕ

unfoldable pub mem_init : ℕ → Heap → Heap
mem_init pool h = record {
  sizes = update h.sizes pool (pool_size - header_size);
  magics = update h.magics pool magic_number;
  free = pool ∷ [];
}

-- `(size + 15) & ~15` on 64 bits
abbrev pub align_up : ℕ → ℕ
align_up size = let s = (size + block_alignment - 1) % 2 ^ 64 in s - s % block_alignment

-- The block `curr` is taken out of the list, and `rest` is behind it. What it does not need becomes
-- a block of its own where that is large enough.
abbrev pub take_block : Heap → ℕ → ℕ → List ℕ → Heap
take_block h size curr rest =
    let new_block = curr + header_size + size in
    let split = ltb (size + header_size + block_alignment) (h.sizes curr) in
    let magics = if split then update h.magics new_block magic_number else h.magics in
    record {
      sizes =
          if split
          then update (update h.sizes new_block (h.sizes curr - size - header_size)) curr size
          else h.sizes;
      magics = update magics curr magic_number;
      free = if split then new_block ∷ rest else rest;
    }

-- a block that is passed over stays in front
abbrev pub pass_over : ℕ → Option (ℕ × Heap) → Option (ℕ × Heap)
pass_over curr none = none
pass_over curr (some (p, h)) = some (p, record h { free = curr ∷ h.free })

-- The loop over the free list: the pointer that is returned, and what the call leaves. The end of
-- the list is the panic for want of memory.
unfoldable pub first_fit : Heap → ℕ → List ℕ → Option (ℕ × Heap)
first_fit h size [] = none
first_fit h size (curr ∷ rest) =
    let later = pass_over curr (first_fit h size rest) in
    if not (h.magics curr == magic_number)
    then none
    else (if leb size (h.sizes curr)
        then some (curr + header_size, take_block h size curr rest)
        else later)

unfoldable pub kmalloc : Heap → ℕ → Option (ℕ × Heap)
kmalloc h size = if size == 0 then some (0, h) else first_fit h (align_up size) h.free

abbrev pub in_list : ℕ → List ℕ → Bool
in_list b [] = false
in_list b (c ∷ cs) = (c == b) || in_list b cs

-- The block `b` stands before `cs`, and takes in the next block if that begins where it ends.
unfoldable pub join_next : (ℕ → ℕ) → ℕ → List ℕ → (ℕ → ℕ) × List ℕ
join_next sizes b [] = (sizes, b ∷ [])
join_next sizes b (n ∷ ns) =
    if (b + header_size + sizes b) == n
    then (update sizes b (sizes b + (header_size + sizes n)), b ∷ ns)
    else (sizes, b ∷ n ∷ ns)

-- The block `b` stands between `prev` and `cs`, and is taken in by `prev` if it begins where that
-- ends.
abbrev pub join_prev : (ℕ → ℕ) → ℕ → ℕ → List ℕ → (ℕ → ℕ) × List ℕ
join_prev sizes b prev cs =
    let (joined, list) = join_next sizes b cs in
    if (prev + header_size + sizes prev) == b
    then join_next (update sizes prev (sizes prev + (header_size + sizes b))) prev cs
    else (joined, prev ∷ list)

-- whether the walk goes on past the front of the list
abbrev pub goes_on : ℕ → List ℕ → Bool
goes_on b [] = false
goes_on b (c ∷ cs) = ltb c b

-- the walk to the place of the block `b`, and its insertion there
unfoldable pub insert_block : (ℕ → ℕ) → ℕ → List ℕ → (ℕ → ℕ) × List ℕ
insert_block sizes b [] = join_next sizes b []
insert_block sizes b (c ∷ cs) =
    let (rest, list) = insert_block sizes b cs in
    if ltb c b
    then (if goes_on b cs then (rest, c ∷ list) else join_prev sizes b c cs)
    else join_next sizes b (c ∷ cs)

unfoldable pub kfree : ℕ → Heap → ℕ → Option Heap
kfree pool h ptr =
    let block = (ptr + 2 ^ 64 - header_size) % 2 ^ 64 in
    let (sizes, free) = insert_block h.sizes block h.free in
    if ptr == 0
    then some h
    else (if ltb block pool || leb (pool + pool_size) block || not (h.magics block == magic_number)
        then none
        else (if in_list block h.free
            then none
            else some (record h { sizes = sizes; free = free })))
