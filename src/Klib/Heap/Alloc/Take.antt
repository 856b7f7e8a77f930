-- ===== src/Klib/Heap/Alloc/Take.antt =====
-- The block that `kmalloc` takes: klib.c, `kmalloc`.
use mathlib.Core.Path.{subst}
use box_kernel.Base.{
  ℕ, ◌+◌, ◌-◌, ◌≤◌, ◌<◌, ◌≡◌, ◌≢◌, inl, inr, refl, sym, ◌∙◌, true, false, List, ◌∷◌, ltb, ltb→lt,
  update, update_ne, update_self, arith,
}
use box_kernel.Klib.Heap.{header_size, block_alignment, magic_number, Heap, take_block}
use box_kernel.Klib.Heap.Spaced.{end_of, Spaced, Spaced-frame, Spaced-from}
use box_kernel.Klib.Heap.Alloc.{
  Marked, Taken, Marked-update, Marked-keeps, Clear-front, Clear-frame,
}

-- the block is taken as a whole
pub take_whole-Taken :
    (h : Heap) (lo c : ℕ) (cs : List ℕ) (hi size : ℕ)
    → Spaced h.sizes lo (c ∷ cs) hi
    → Marked h.magics (c ∷ cs)
    → size ≤ h.sizes c
    → ltb (size + header_size + block_alignment) (h.sizes c) ≡ false
    → Taken h lo (c ∷ cs) hi size c (take_block h size c cs)
take_whole-Taken h lo c cs hi size (above, fits, rest) (mark, marks) enough whole =
    let magics = update h.magics c magic_number in
    let keeps = Marked-update h.magics c in
    rw whole (record {
      above = above;
      fits = fits;
      enough = enough;
      marked = update_self h.magics c magic_number;
      clear = Clear-front h.sizes c (end_of h.sizes c + 1) cs hi (omega arith) rest;
      spaced = Spaced-from h.sizes (end_of h.sizes c + 1) lo cs hi (omega (arith, above)) rest;
      all_marked = Marked-keeps h.magics magics cs keeps marks;
      sum = refl;
      below = λ x l. refl;
      keeps_mark = keeps;
      others = λ a (apart, clear).
          (clear, refl, elim apart [ inl before ↦ inr before | inr after ↦ inl after ]);
    })

-- the sizes after the block at `c` has been split at `size`
module _ (f : ℕ → ℕ) (c size : ℕ) where
  abbrev new_block : ℕ
  new_block = c + header_size + size

  abbrev split_sizes : ℕ → ℕ
  split_sizes = update (update f new_block (f c - size - header_size)) c size

  split-here : split_sizes c ≡ size
  split-here = update_self (update f new_block (f c - size - header_size)) c size

  split-new : split_sizes new_block ≡ f c - size - header_size
  split-new =
      update_ne (update f new_block (f c - size - header_size)) c new_block size (omega arith)
      ∙ update_self f new_block (f c - size - header_size)

  split-ne : (x : ℕ) → c ≢ x → new_block ≢ x → split_sizes x ≡ f x
  split-ne x off off' =
      update_ne (update f new_block (f c - size - header_size)) c x size off
      ∙ update_ne f new_block x (f c - size - header_size) off'

-- the block is split, and its second part stays free
pub take_split-Taken :
    (h : Heap) (lo c : ℕ) (cs : List ℕ) (hi size : ℕ)
    → Spaced h.sizes lo (c ∷ cs) hi
    → Marked h.magics (c ∷ cs)
    → ltb (size + header_size + block_alignment) (h.sizes c) ≡ true
    → Taken h lo (c ∷ cs) hi size c (take_block h size c cs)
take_split-Taken h lo c cs hi size (above, fits, rest) (mark, marks) split =
    let f = h.sizes in
    let new = new_block f c size in
    let g = split_sizes f c size in
    let large : size + header_size + block_alignment < f c =
      ltb→lt (size + header_size + block_alignment) (f c) split in
    let here = split-here f c size in
    let there = split-new f c size in
    let far : (x : ℕ) → end_of f c + 1 ≤ x → g x ≡ f x =
      λ x l. split-ne f c size x (omega (arith, l)) (omega (arith, l, large)) in
    let end : end_of g new ≡ end_of f c = omega (arith, there, large) in
    let (rest', sum) = Spaced-frame f g (end_of f c + 1) cs hi far rest in
    let rest'' = subst (λ e. Spaced g (e + 1) cs hi) (sym end) rest' in
    let m = update h.magics new magic_number in
    let magics = update m c magic_number in
    let keeps : (x : ℕ) → h.magics x ≡ magic_number → magics x ≡ magic_number =
      λ x marked. Marked-update m c x (Marked-update h.magics new x marked) in
    rw split (record {
      above = above;
      fits = omega (arith, here, fits, large);
      enough = omega (arith, here);
      marked = update_self m c magic_number;
      clear = (
        inr (omega (arith, here)),
        Clear-front g c (end_of g new + 1) cs hi (omega (arith, here, end, large)) rest'',
      );
      spaced = (omega (arith, above), omega (arith, end, fits), rest'');
      all_marked = (
        Marked-update m c new (update_self h.magics new magic_number),
        Marked-keeps h.magics magics cs keeps marks,
      );
      sum = omega (arith, here, there, large, sum);
      below = λ x l. split-ne f c size x (omega (arith, l, above)) (omega (arith, l, above));
      keeps_mark = keeps;
      others = λ a (apart, clear).
          let own : g a ≡ f a =
            split-ne f c size a
              (λ e. elim apart [
                | inl before ↦ omega (arith, before, e)
                | inr after ↦ omega (arith, after, e)
              ])
              (λ e. elim apart [
                | inl before ↦ omega (arith, before, e, large)
                | inr after ↦ omega (arith, after, e)
              ]) in
          (
            (
              elim apart [
                | inl before ↦ inl (omega (arith, before, end))
                | inr after ↦ inr (omega (arith, after, own))
              ],
              Clear-frame f g a (end_of f c + 1) cs hi own far rest clear,
            ),
            own,
            elim apart [
              | inl before ↦ inr (omega (arith, before, here, large))
              | inr after ↦ inl (omega (arith, after, own))
            ],
          );
    })
