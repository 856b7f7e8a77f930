-- ===== src/Pmm/Bitmap.antt =====
-- The bits of the page bitmap. pmm.c, `pmm_set_bit` and `pmm_get_bit`.
use native.Mathlib.Nat.{mod-lt}
use box_kernel.Base.{
  ℕ, zero, suc, ◌+◌, ◌/◌, ◌%◌, ◌^◌, ◌<◌, ◌≡◌, refl, sym, ◌∙◌, inl, inr, Bool, true, false, not,
  ◌&&◌, bit_and, ltb, leb, ◌==◌, if◌then◌else◌, ==_iff, Bool-cases, every, every_lem, arith,
}
use box_kernel.Pmm.{FrameState, Zone, mark, pmm_set_bit, pmm_get_bit, set_bits}

-- whether a state is kept as a set bit
abbrev pub is_taken : FrameState → Bool
is_taken FrameState.free = false
is_taken _ = true

-- every byte of the bitmap is a byte
abbrev pub IsBitmap : (ℕ → ℕ) → Type 0
IsBitmap bitmap = (i : ℕ) → bitmap i < 256

abbrev bit_of : ℕ → ℕ → Bool
bit_of byte offset = not (bit_and byte (2 ^ offset) == 0)

same : Bool → Bool → Bool
same true b = b
same false b = not b

same-eq : (a b : Bool) → same a b ≡ true → a ≡ b
unfolding same
same-eq true true h = refl
same-eq true false h = sym h
same-eq false true h = h
same-eq false false h = refl

-- of one byte, and two of its bits: what marking the first does to the second
abbrev marks : FrameState → ℕ → ℕ → ℕ → Bool
marks state byte o p =
    ltb (mark state byte o) 256
    && same (bit_of (mark state byte o) p) (if o == p then is_taken state else bit_of byte p)

all_marks : FrameState → Bool
all_marks state = every (λ byte. every (λ o. every (λ p. marks state byte o p) 0 8) 0 8) 0 256

clears : all_marks FrameState.free ≡ true
unfolding all_marks every same
clears = refl

sets : all_marks FrameState.used ≡ true
unfolding all_marks every same
sets = refl

marks_all : (state : FrameState) → all_marks state ≡ true
unfolding all_marks
marks_all FrameState.free = clears
marks_all FrameState.used = sets
marks_all FrameState.reserved = sets
marks_all FrameState.kernel = sets
marks_all FrameState.bad = sets

mark_lem :
    (state : FrameState) (byte o p : ℕ)
    → byte < 256
    → o < 8
    → p < 8
    → (mark state byte o < 256)
      × (bit_of (mark state byte o) p ≡ (if o == p then is_taken state else bit_of byte p))
unfolding all_marks
mark_lem state byte o p hb ho hp =
    let bytes =
      every_lem (λ byte. every (λ o. every (λ p. marks state byte o p) 0 8) 0 8) 256 0 byte
        (marks_all state) (omega arith) (omega arith) in
    let os =
      every_lem (λ o. every (λ p. marks state byte o p) 0 8) 8 0 o bytes (omega arith)
        (omega arith) in
    let h : marks state byte o p ≡ true =
      every_lem (λ p. marks state byte o p) 8 0 p os (omega arith) (omega arith) in
    (ground (arith, h), same-eq _ _ (ground (arith, h)))

pub pmm_set_bit-IsBitmap :
    (z : Zone) (bit : ℕ) (state : FrameState)
    → IsBitmap z.bitmap
    → IsBitmap (pmm_set_bit z bit state).bitmap
unfolding pmm_set_bit
pmm_set_bit-IsBitmap z bit state v i =
    let small =
      (mark_lem state (z.bitmap (bit / 8)) (bit % 8) 0 (v (bit / 8)) (mod-lt bit (omega arith))
        (omega arith)).0 in
    elim (Bool-cases (bit / 8 == i)) [ inl here ↦ rw here small | inr there ↦ rw there (v i) ]

-- Setting a bit of the map sets that bit and no other.
pub pmm_get_bit-pmm_set_bit :
    (z : Zone) (bit j : ℕ) (state : FrameState)
    → IsBitmap z.bitmap
    → pmm_get_bit (pmm_set_bit z bit state) j
      ≡ (if bit == j then is_taken state else pmm_get_bit z j)
unfolding pmm_set_bit pmm_get_bit
pmm_get_bit-pmm_set_bit z bit j state v = elim (Bool-cases (bit / 8 == j / 8)) [
  | inl here ↦
      let byte : bit / 8 ≡ j / 8 = (==_iff _ _).0 here in
      let (_, e) =
        mark_lem state (z.bitmap (bit / 8)) (bit % 8) (j % 8) (v (bit / 8))
          (mod-lt bit (omega arith)) (mod-lt j (omega arith)) in
      let bits : (bit % 8 == j % 8) ≡ (bit == j) = ground arith in
      rw here (e ∙ rw (bits, byte) refl)
  | inr there ↦ let other : (bit == j) ≡ false = ground arith in rw (there, other) refl
]

-- The loops over a run of pages mark the pages of the run and no other.
pub set_bits_lem :
    (n first j : ℕ) (z : Zone) (state : FrameState)
    → IsBitmap z.bitmap
    → IsBitmap (set_bits z first n state).bitmap
      × (pmm_get_bit (set_bits z first n state) j
          ≡ (if leb first j && ltb j (first + n) then is_taken state else pmm_get_bit z j))
unfolding set_bits
set_bits_lem zero first j z state v = (v, ground arith)
set_bits_lem (suc n) first j z state v =
    let (v', e) =
      set_bits_lem n (first + 1) j (pmm_set_bit z first state) state
        (pmm_set_bit-IsBitmap z first state v) in
    let one = pmm_get_bit-pmm_set_bit z first j state v in (v', e ∙ ground (arith, one))

-- The rest of the zone stays.
pub set_bits_same :
    (n first : ℕ) (z : Zone) (state : FrameState)
    → let z' = set_bits z first n state in
      (z'.base ≡ z.base)
      × (z'.pages ≡ z.pages)
      × (z'.last_free ≡ z.last_free)
      × (z'.initialized ≡ z.initialized)
unfolding set_bits pmm_set_bit
set_bits_same zero first z state = (refl, refl, refl, refl)
set_bits_same (suc n) first z state = set_bits_same n (first + 1) (pmm_set_bit z first state) state
