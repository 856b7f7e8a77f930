-- ===== src/Klib/Heap/Spaced.antt =====
-- What it is for the free list to be in order: klib.c, `free_list`.
use box_kernel.Base.{ℕ, ◌+◌, ◌≤◌, ◌≡◌, ◌⊎◌, refl, List, [], ◌∷◌, arith}
use box_kernel.Klib.Heap.{header_size}

-- the end of a block
abbrev pub end_of : (ℕ → ℕ) → ℕ → ℕ
end_of sizes c = c + header_size + sizes c

-- The blocks are in the order of their addresses, from `lo` on and up to `hi`, and between one and
-- the next something else stands: no two free blocks touch.
abbrev pub Spaced : (ℕ → ℕ) → ℕ → List ℕ → ℕ → Type 0
Spaced sizes lo [] hi = Unit
Spaced sizes lo (c ∷ cs) hi =
    (lo ≤ c) × (end_of sizes c ≤ hi) × Spaced sizes (end_of sizes c + 1) cs hi

-- the bytes of the blocks, with their headers
abbrev pub total : (ℕ → ℕ) → List ℕ → ℕ
total sizes [] = 0
total sizes (c ∷ cs) = header_size + sizes c + total sizes cs

-- A block overlaps none of the list.
abbrev pub Clear : (ℕ → ℕ) → ℕ → List ℕ → Type 0
Clear sizes b [] = Unit
Clear sizes b (c ∷ cs) = ((end_of sizes c ≤ b) ⊎ (end_of sizes b ≤ c)) × Clear sizes b cs

-- Sizes below the list are not read.
pub Spaced-frame :
    (f g : ℕ → ℕ) (lo : ℕ) (cs : List ℕ) (hi : ℕ)
    → ((x : ℕ) → lo ≤ x → g x ≡ f x)
    → Spaced f lo cs hi
    → Spaced g lo cs hi × (total g cs ≡ total f cs)
Spaced-frame f g lo [] hi same s = (tt, refl)
Spaced-frame f g lo (c ∷ cs) hi same (above, fits, rest) =
    let here = same c above in
    let (rest', sum) =
      Spaced-frame f g (end_of f c + 1) cs hi (λ x h. same x (omega (arith, h, above))) rest in
    ((above, rw here fits, rw here rest'), omega (arith, here, sum))

-- The list may begin later where its first block does.
pub Spaced-from :
    (f : ℕ → ℕ) (lo lo' : ℕ) (cs : List ℕ) (hi : ℕ)
    → lo' ≤ lo
    → Spaced f lo cs hi
    → Spaced f lo' cs hi
Spaced-from f lo lo' [] hi h s = tt
Spaced-from f lo lo' (c ∷ cs) hi h (above, fits, rest) = (omega (arith, h, above), fits, rest)
