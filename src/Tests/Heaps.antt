-- ===== src/Tests/Heaps.antt =====
-- Runs of the kernel's heap, with the pool at 4096.
use box_kernel.Base.{
  ℕ, ◌+◌, ◌-◌, ◌^◌, ◌≤◌, ◌≡◌, ◌⊎◌, inr, refl, Option, none, some, [], ◌∷◌, ◌==◌, if◌then◌else◌,
  arith,
}
use box_kernel.Klib.Heap.{
  header_size, magic_number, align_up, Heap, join_next, insert_block, first_fit, kmalloc, kfree,
}
use box_kernel.Klib.Heap.Spaced.{total}
use box_kernel.Klib.Heap.Free.{IsHeap, IsTaken, kfree_lem}
use box_kernel.Klib.Heap.Alloc.{Marked, TooSmall, Apart}
use box_kernel.Klib.Heap.Alloc.Fit.{kmalloc_lem}

abbrev start : Heap
start = record {
  sizes = λ a. if a == 4096 then 1048552 else 0;
  magics = λ a. if a == 4096 then magic_number else 0;
  free = 4096 ∷ [];
}

start-IsHeap : IsHeap 4096 start
start-IsHeap = record { spaced = (omega arith, omega arith, tt); in_space = omega arith }

-- two blocks are in use, at 4096 and 4144, and the rest is free from 4192 on
abbrev used : Heap
used = record {
  sizes = λ a. if a == 4192 then 1048456 else 24;
  magics = λ a. magic_number;
  free = 4192 ∷ [];
}

used-IsHeap : IsHeap 4096 used
used-IsHeap = record { spaced = (omega arith, omega arith, tt); in_space = omega arith }

second-IsTaken : IsTaken 4096 used 4144
second-IsTaken = record {
  above = omega arith;
  fits = omega arith;
  marked = refl;
  clear = (inr (omega arith), tt);
}

kfree_lem_example :
    (h' : Heap) × (kfree 4096 used 4168 ≡ some h')
    × IsHeap 4096 h'
    × (total h'.sizes h'.free ≡ 24 + 24 + total used.sizes used.free)
kfree_lem_example = kfree_lem 4096 used 4144 used-IsHeap second-IsTaken

kmalloc_lem_example :
    ((b : ℕ) × ((h' : Heap) × (kmalloc start 100 ≡ some (b + header_size, h'))
        × (100 ≤ h'.sizes b)
        × IsHeap 4096 h'
        × Marked h'.magics h'.free
        × IsTaken 4096 h' b
        × (total start.sizes start.free ≡ header_size + h'.sizes b + total h'.sizes h'.free)
        × ((a : ℕ)
            → IsTaken 4096 start a
            → IsTaken 4096 h' a × (h'.sizes a ≡ start.sizes a) × Apart h'.sizes a b)))
    ⊎ ((kmalloc start 100 ≡ none) × TooSmall start.sizes (align_up 100) start.free)
kmalloc_lem_example = kmalloc_lem 4096 start 100 start-IsHeap (refl, tt) (omega arith) (omega arith)

-- the pointer and the sizes after an allocation that splits the pool
split_run :
    (elim (kmalloc start 100) [ none ↦ [] | some (p, h) ↦ p ∷ h.sizes 4096 ∷ h.free ])
    ≡ 4120 ∷ 112 ∷ 4232 ∷ []
unfolding kmalloc first_fit
split_run = refl

-- A request of nearly 2 ^ 64 bytes is rounded to none.
wrapped_run : align_up (2 ^ 64 - 8) ≡ 0
wrapped_run = refl

-- A block that its predecessor has taken in can be freed again, and is then in the list a second
-- time.
abbrev twice : Option Heap
twice = elim (kfree 4096 used 4120) [
  | none ↦ none
  | some h ↦ elim (kfree 4096 h 4168) [ none ↦ none | some h' ↦ kfree 4096 h' 4168 ]
]

twice_run : (elim twice [ none ↦ [] | some h ↦ h.free ]) ≡ 4096 ∷ 4144 ∷ []
unfolding kfree insert_block join_next
twice_run = refl
