-- ===== src/Klib/Heap/Alloc.antt =====
-- A block is taken from the free list: klib.c, `kmalloc`.
pub mod Take
pub mod Fit
use mathlib.Core.Path.{subst}
use box_kernel.Base.{
  ℕ, ◌+◌, ◌-◌, ◌%◌, ◌^◌, ◌≤◌, ◌<◌, ◌≡◌, ◌≢◌, ◌⊎◌, inl, inr, refl, sym, ◌∙◌, ap, Bool, true, false,
  not, ◌||◌, Option, none, some, List, [], ◌∷◌, ltb, leb, lt→ltb, le→ltb, ltb→lt, ◌==◌, ==_iff,
  ==→ne, ne→==, if◌then◌else◌, Bool-cases, update, update_ne, update_self, arith,
}
use box_kernel.Klib.Heap.{
  header_size, block_alignment, pool_size, magic_number, align_up, Heap, take_block, pass_over,
  first_fit, kmalloc,
}
use box_kernel.Klib.Heap.Spaced.{end_of, Spaced, total, Clear, Spaced-frame, Spaced-from}

-- every block of the list has the magic number
abbrev pub Marked : (ℕ → ℕ) → List ℕ → Type 0
Marked magics [] = Unit
Marked magics (c ∷ cs) = (magics c ≡ magic_number) × Marked magics cs

-- every block of the list is too small
abbrev pub TooSmall : (ℕ → ℕ) → ℕ → List ℕ → Type 0
TooSmall sizes size [] = Unit
TooSmall sizes size (c ∷ cs) = (sizes c < size) × TooSmall sizes size cs

-- two blocks do not overlap
abbrev pub Apart : (ℕ → ℕ) → ℕ → ℕ → Type 0
Apart sizes a b = (end_of sizes a ≤ b) ⊎ (end_of sizes b ≤ a)

-- What a successful search of the list `cs` leaves, for the block `b`.
pub record Taken (h : Heap) (lo : ℕ) (cs : List ℕ) (hi size b : ℕ) (h' : Heap) : Type 0 where
  pub above : lo ≤ b
  pub fits : end_of h'.sizes b ≤ hi
  pub enough : size ≤ h'.sizes b
  pub marked : h'.magics b ≡ magic_number
  pub clear : Clear h'.sizes b h'.free
  pub spaced : Spaced h'.sizes lo h'.free hi
  pub all_marked : Marked h'.magics h'.free
  pub sum : total h.sizes cs ≡ header_size + h'.sizes b + total h'.sizes h'.free
  pub below : (x : ℕ) → x < lo → h'.sizes x ≡ h.sizes x
  pub keeps_mark : (x : ℕ) → h.magics x ≡ magic_number → h'.magics x ≡ magic_number
  pub others :
      (a : ℕ)
      → Clear h.sizes a cs
      → Clear h'.sizes a h'.free × (h'.sizes a ≡ h.sizes a) × Apart h'.sizes a b

pub Marked-update :
    (m : ℕ → ℕ) (a x : ℕ) → m x ≡ magic_number → update m a magic_number x ≡ magic_number
Marked-update m a x marked = ground (arith, marked)

pub Marked-keeps :
    (m m' : ℕ → ℕ) (cs : List ℕ)
    → ((x : ℕ) → m x ≡ magic_number → m' x ≡ magic_number)
    → Marked m cs
    → Marked m' cs
Marked-keeps m m' [] keeps marked = tt
Marked-keeps m m' (c ∷ cs) keeps (here, rest) = (keeps c here, Marked-keeps m m' cs keeps rest)

-- A block in front of the list overlaps none of it.
pub Clear-front :
    (f : ℕ → ℕ) (b lo : ℕ) (cs : List ℕ) (hi : ℕ)
    → end_of f b ≤ lo
    → Spaced f lo cs hi
    → Clear f b cs
Clear-front f b lo [] hi h s = tt
Clear-front f b lo (c ∷ cs) hi h (above, fits, rest) = (
  inr (omega (arith, h, above)),
  Clear-front f b (end_of f c + 1) cs hi (omega (arith, h, above)) rest,
)

-- What is clear stays so where the sizes that count are the same.
pub Clear-frame :
    (f g : ℕ → ℕ) (b lo : ℕ) (cs : List ℕ) (hi : ℕ)
    → g b ≡ f b
    → ((x : ℕ) → lo ≤ x → g x ≡ f x)
    → Spaced f lo cs hi
    → Clear f b cs
    → Clear g b cs
Clear-frame f g b lo [] hi own same s clear = tt
Clear-frame f g b lo (c ∷ cs) hi own same (above, fits, rest) (apart, clear) = (
  elim apart [
    | inl before ↦ inl (omega (arith, before, same c above))
    | inr after ↦ inr (omega (arith, after, own))
  ],
  Clear-frame f g b (end_of f c + 1) cs hi own (λ x h. same x (omega (arith, h, above))) rest clear,
)

-- A block that is passed over stays in front.
pub pass_over-Taken :
    (h : Heap) (lo c : ℕ) (cs : List ℕ) (hi size b : ℕ) (h' : Heap)
    → lo ≤ c
    → end_of h.sizes c ≤ hi
    → h.magics c ≡ magic_number
    → Taken h (end_of h.sizes c + 1) cs hi size b h'
    → Taken h lo (c ∷ cs) hi size b (record h' { free = c ∷ h'.free })
pass_over-Taken h lo c cs hi size b h' above fits mark t =
    let here : h'.sizes c ≡ h.sizes c = t.below c (omega arith) in
    record {
      above = omega (arith, above, t.above);
      fits = t.fits;
      enough = t.enough;
      marked = t.marked;
      clear = (inl (omega (arith, here, t.above)), t.clear);
      spaced = (
        above,
        omega (arith, here, fits),
        subst (λ v. Spaced h'.sizes (c + header_size + v + 1) h'.free hi) (sym here) t.spaced,
      );
      all_marked = (t.keeps_mark c mark, t.all_marked);
      sum = omega (arith, here, t.sum);
      below = λ x l. t.below x (omega (arith, l, above));
      keeps_mark = t.keeps_mark;
      others = λ a (apart, clear).
          let (clear', own, off) = t.others a clear in
          (
            (
              elim apart [
                | inl before ↦ inl (omega (arith, before, here))
                | inr after ↦ inr (omega (arith, after, own))
              ],
              clear',
            ),
            own,
            off,
          );
    }
