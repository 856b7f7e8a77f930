-- ===== src/Klib/Heap/Free.antt =====
-- A block goes back to the free list: klib.c, `kfree`.
use mathlib.Core.Path.{subst}
use box_kernel.Base.{
  ℕ, ◌+◌, ◌-◌, ◌%◌, ◌^◌, ◌≤◌, ◌<◌, ◌≡◌, ◌≢◌, inl, inr, refl, sym, ◌∙◌, ap, true, false, some, List,
  [], ◌∷◌, ltb, leb, le→ltb, ltb→lt, ◌==◌, ==_iff, ==→ne, ne→==, Bool-cases, update, update_ne,
  update_self, arith,
}
use box_kernel.Klib.Heap.{
  header_size, pool_size, magic_number, Heap, join_next, join_prev, goes_on, insert_block, in_list,
  kfree,
}
use box_kernel.Klib.Heap.Spaced.{end_of, Spaced, total, Clear, Spaced-frame}

-- What an insertion leaves: the list is in order, it has the block's bytes more, and no size below
-- `lo` has changed.
pub record Inserted (f : ℕ → ℕ) (lo b : ℕ) (cs : List ℕ) (hi : ℕ) (r : (ℕ → ℕ) × List ℕ)
    : Type 0 where
  pub spaced : Spaced r.0 lo r.1 hi
  pub sum : total r.0 r.1 ≡ header_size + f b + total f cs
  pub below : (x : ℕ) → x < lo → r.0 x ≡ f x

pub join_next-Inserted :
    (f : ℕ → ℕ) (lo b : ℕ) (cs : List ℕ) (hi : ℕ)
    → lo ≤ b
    → end_of f b ≤ hi
    → Spaced f (end_of f b) cs hi
    → Inserted f lo b cs hi (join_next f b cs)
unfolding join_next
join_next-Inserted f lo b [] hi above fits s = record {
  spaced = (above, fits, tt);
  sum = refl;
  below = λ x h. refl;
}
join_next-Inserted f lo b (n ∷ ns) hi above fits (after, fits', rest) =
    elim (Bool-cases (end_of f b == n)) [
      | inl touch ↦
          let e : end_of f b ≡ n = (==_iff (end_of f b) n).0 touch in
          let g = update f b (f b + (header_size + f n)) in
          let here : g b ≡ f b + (header_size + f n) =
            update_self f b (f b + (header_size + f n)) in
          let same : (x : ℕ) → b ≢ x → g x ≡ f x =
            λ x ne. update_ne f b x (f b + (header_size + f n)) ne in
          let (rest', sum) =
            Spaced-frame f g (end_of f n + 1) ns hi (λ x h. same x (omega (arith, h, after)))
              rest in
          let end : end_of g b ≡ end_of f n = omega (arith, here, e) in
          rw touch (record {
            spaced = (
              above,
              omega (arith, end, fits'),
              subst (λ e. Spaced g (e + 1) ns hi) (sym end) rest',
            );
            sum = omega (arith, here, sum);
            below = λ x h. same x (omega (arith, h, above));
          })
      | inr gap ↦
          let off = ==→ne (end_of f b) n gap in
          rw gap (record {
            spaced = (above, fits, (omega (arith, off, after), fits', rest));
            sum = refl;
            below = λ x h. refl;
          })
    ]

-- A block in front of the place of the insertion stays as it is.
behind-Inserted :
    (f : ℕ → ℕ) (lo b c : ℕ) (cs : List ℕ) (hi : ℕ) (r : (ℕ → ℕ) × List ℕ)
    → lo ≤ c
    → end_of f c ≤ hi
    → Inserted f (end_of f c + 1) b cs hi r
    → Inserted f lo b (c ∷ cs) hi (r.0, c ∷ r.1)
behind-Inserted f lo b c cs hi r above fits i =
    let here : r.0 c ≡ f c = i.below c (omega arith) in
    record {
      spaced = (
        above,
        omega (arith, here, fits),
        subst (λ e. Spaced r.0 (e + 1) r.1 hi) (ap (λ v. c + header_size + v) (sym here)) i.spaced,
      );
      sum = omega (arith, here, i.sum);
      below = λ x h. i.below x (omega (arith, h, above));
    }

pub join_prev-Inserted :
    (f : ℕ → ℕ) (lo b c : ℕ) (cs : List ℕ) (hi : ℕ)
    → lo ≤ c
    → end_of f c ≤ b
    → end_of f b ≤ hi
    → Spaced f (end_of f b) cs hi
    → Inserted f lo b (c ∷ cs) hi (join_prev f b c cs)
join_prev-Inserted f lo b c cs hi above before fits s = elim (Bool-cases (end_of f c == b)) [
  | inl touch ↦
      let e : end_of f c ≡ b = (==_iff (end_of f c) b).0 touch in
      let v = f c + (header_size + f b) in
      let g = update f c v in
      let here : g c ≡ v = update_self f c v in
      let same : (x : ℕ) → c ≢ x → g x ≡ f x = λ x ne. update_ne f c x v ne in
      let (s', sum) =
        Spaced-frame f g (end_of f b) cs hi (λ x h. same x (omega (arith, h, before))) s in
      let end : end_of g c ≡ end_of f b = omega (arith, here, e) in
      let joined =
        join_next-Inserted g lo c cs hi above (omega (arith, end, fits))
          (subst (λ e. Spaced g e cs hi) (sym end) s') in
      rw touch (record {
        spaced = joined.spaced;
        sum = joined.sum ∙ omega (arith, here, sum);
        below = λ x h. joined.below x h ∙ same x (omega (arith, h, above));
      })
  | inr gap ↦
      let off = ==→ne (end_of f c) b gap in
      let joined =
        join_next-Inserted f (end_of f c + 1) b cs hi (omega (arith, off, before)) fits s in
      rw gap (
        behind-Inserted f lo b c cs hi (join_next f b cs) above (omega (arith, before, fits))
          joined)
]

-- What is left of the list when the walk stops begins behind the block.
rest-behind :
    (f : ℕ → ℕ) (lo b : ℕ) (cs : List ℕ) (hi : ℕ)
    → Spaced f lo cs hi
    → Clear f b cs
    → goes_on b cs ≡ false
    → Spaced f (end_of f b) cs hi
rest-behind f lo b [] hi s clear stops = tt
rest-behind f lo b (c ∷ cs) hi (above, fits, rest) (apart, clear) stops =
    let behind : b ≤ c = ground (arith, stops) in
    (elim apart [ inl before ↦ omega (arith, before, behind) | inr after ↦ after ], fits, rest)

front-before :
    (f : ℕ → ℕ) (lo b : ℕ) (cs : List ℕ) (hi : ℕ) → Spaced f lo cs hi → goes_on b cs ≡ true → lo ≤ b
front-before f lo b [] hi s on = absurd (ground (arith, on))
front-before f lo b (c ∷ cs) hi (above, fits, rest) on = ground (arith, above, on)

pub insert_block-Inserted :
    (f : ℕ → ℕ) (lo b : ℕ) (cs : List ℕ) (hi : ℕ)
    → Spaced f lo cs hi
    → Clear f b cs
    → lo ≤ b
    → end_of f b ≤ hi
    → Inserted f lo b cs hi (insert_block f b cs)
unfolding insert_block
insert_block-Inserted f lo b [] hi s clear above fits =
    join_next-Inserted f lo b [] hi above fits tt
insert_block-Inserted f lo b (c ∷ cs) hi (low, fits', rest) (apart, clear) above fits =
    elim (Bool-cases (ltb c b)) [
      | inr here ↦
          let stops = rest-behind f lo b (c ∷ cs) hi (low, fits', rest) (apart, clear) here in
          rw here (join_next-Inserted f lo b (c ∷ cs) hi above fits stops)
      | inl past ↦
          let before : end_of f c ≤ b = elim apart [
            | inl before ↦ before
            | inr after ↦ absurd (omega (arith, after, ltb→lt c b past))
          ] in
          elim (Bool-cases (goes_on b cs)) [
            | inr stops ↦ rw past (
                rw stops (
                  join_prev-Inserted f lo b c cs hi low before fits
                    (rest-behind f (end_of f c + 1) b cs hi rest clear stops)))
            | inl on ↦
                let next : end_of f c + 1 ≤ b = front-before f (end_of f c + 1) b cs hi rest on in
                rw past (
                  rw on (
                    behind-Inserted f lo b c cs hi (insert_block f b cs) low fits'
                      (insert_block-Inserted f (end_of f c + 1) b cs hi rest clear next fits)))
          ]
    ]

-- The heap in order, for the pool at the address `pool`.
pub record IsHeap (pool : ℕ) (h : Heap) : Type 0 where
  pub spaced : Spaced h.sizes pool h.free (pool + pool_size)
  pub in_space : pool + pool_size ≤ 2 ^ 64

-- a block of the pool that has been given out: it overlaps no free block
pub record IsTaken (pool : ℕ) (h : Heap) (b : ℕ) : Type 0 where
  pub above : pool ≤ b
  pub fits : end_of h.sizes b ≤ pool + pool_size
  pub marked : h.magics b ≡ magic_number
  pub clear : Clear h.sizes b h.free

in_list-Clear : (f : ℕ → ℕ) (b : ℕ) (cs : List ℕ) → Clear f b cs → in_list b cs ≡ false
in_list-Clear f b [] clear = refl
in_list-Clear f b (c ∷ cs) (apart, clear) =
    let off : c ≢ b = λ e. elim apart [
      | inl before ↦ omega (arith, before, e)
      | inr after ↦ omega (arith, after, e)
    ] in
    rw (ne→== c b off) (in_list-Clear f b cs clear)

-- Freeing a block that has been given out succeeds. The free list is in order, with no two blocks
-- that overlap or touch, and it has exactly the block's bytes more.
pub kfree_lem :
    (pool : ℕ) (h : Heap) (b : ℕ)
    → IsHeap pool h
    → IsTaken pool h b
    → (h' : Heap) × (kfree pool h (b + header_size) ≡ some h')
      × IsHeap pool h'
      × (total h'.sizes h'.free ≡ header_size + h.sizes b + total h.sizes h.free)
unfolding kfree
kfree_lem pool h b heap taken =
    let block : (b + header_size + 2 ^ 64 - header_size) % 2 ^ 64 ≡ b =
      omega (arith, heap.in_space, taken.fits) in
    let i =
      insert_block-Inserted h.sizes pool b h.free (pool + pool_size) heap.spaced taken.clear
        taken.above taken.fits in
    let r = insert_block h.sizes b h.free in
    let some_ptr : (b + header_size == 0) ≡ false = ground arith in
    let low : ltb b pool ≡ false = le→ltb b pool taken.above in
    let high : leb (pool + pool_size) b ≡ false = ground (arith, taken.fits) in
    let magic : (h.magics b == magic_number) ≡ true =
      (==_iff (h.magics b) magic_number).1 taken.marked in
    (
      record h { sizes = r.0; free = r.1 },
      rw some_ptr (
          rw block
            (rw low (rw high (rw magic (rw (in_list-Clear h.sizes b h.free taken.clear) refl))))),
      record { spaced = i.spaced; in_space = heap.in_space },
      i.sum,
    )
