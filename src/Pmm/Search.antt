-- ===== src/Pmm/Search.antt =====
-- The search for a run of free pages. pmm.c, `pmm_find_free_sequence`.
use native.Mathlib.Decide.{dec_lt}
use box_kernel.Base.{
  ℕ, zero, suc, ◌+◌, ◌^◌, ◌≤◌, ◌<◌, ◌≡◌, ◌⊎◌, refl, sym, ◌∙◌, ap, inl, inr, Bool, true, false, not,
  ◌&&◌, Option, none, some, ◌==◌, ==_iff, Bool-cases, arith, u64, sub64,
}
use box_kernel.Pmm.{Zone, pmm_get_bit, search}

-- whether the `n` pages from `s` on are free
unfoldable pub all_free : Zone → ℕ → ℕ → Bool
all_free z s zero = true
all_free z s (suc n) = let rest = all_free z (s + 1) n in not (pmm_get_bit z s) && rest

pub all_free-get_bit :
    (z : Zone) (n s j : ℕ) → all_free z s n ≡ true → s ≤ j → j < s + n → pmm_get_bit z j ≡ false
unfolding all_free
all_free-get_bit z zero s j h low high = absurd (omega arith)
all_free-get_bit z (suc n) s j h low high = elim (dec_lt s j) [
  | yes later ↦ all_free-get_bit z n (s + 1) j (ground arith) (omega arith) (omega arith)
  | no same ↦ let here : s ≡ j = omega arith in ap (pmm_get_bit z) (sym here) ∙ ground arith
]

pub get_bit-all_free :
    (z : Zone) (n s : ℕ)
    → ((j : ℕ) → s ≤ j → j < s + n → pmm_get_bit z j ≡ false)
    → all_free z s n ≡ true
unfolding all_free
get_bit-all_free z zero s h = refl
get_bit-all_free z (suc n) s h =
    rw
      (
        h s (omega arith) (omega arith),
        get_bit-all_free z n (s + 1) (λ j low high. h j (omega arith) (omega arith)),
      )
      refl

module _ (z : Zone) (count : ℕ) where
  -- The search from `i` on, with the free pages from `low` to `i` behind it: it finds a run of free
  -- pages, or there is none in the range.
  pub record Found (low high s : ℕ) : Type 0 where
    pub above : low ≤ s
    pub below : s + count ≤ high
    pub is_free : all_free z s count ≡ true

  abbrev pub NoRun : ℕ → ℕ → Type 0
  NoRun low high =
      (s : ℕ)
      → low ≤ s
      → s + count ≤ high
      → (j : ℕ) × (s ≤ j) × (j < s + count) × (pmm_get_bit z j ≡ true)

  abbrev pub Outcome : ℕ → ℕ → Option ℕ → Type 0
  Outcome low high out =
      ((s : ℕ) × (out ≡ some s) × Found low high s) ⊎ ((out ≡ none) × NoRun low high)

  -- A used page that every run from `low` on covers, up to its end, moves `low` behind it.
  skip :
      (low i high : ℕ) (out : Option ℕ)
      → low ≤ i
      → i < low + count
      → pmm_get_bit z i ≡ true
      → Outcome (i + 1) high out
      → Outcome low high out
  skip low i high out a b used (inl (s, e, found)) = inl (
    s,
    e,
    record { above = omega (arith, found.above); below = found.below; is_free = found.is_free },
  )
  skip low i high out a b used (inr (e, none_behind)) = inr (
    e,
    λ s above below. elim (dec_lt i s) [
      | yes behind ↦ none_behind s (omega arith) below
      | no before ↦ (i, omega arith, omega arith, used)
    ],
  )

  -- one more free page
  extend :
      (low i : ℕ)
      → pmm_get_bit z i ≡ false
      → ((j : ℕ) → low ≤ j → j < i → pmm_get_bit z j ≡ false)
      → (j : ℕ) → low ≤ j
      → j < i + 1
      → pmm_get_bit z j ≡ false
  extend low i free behind j a b = elim (dec_lt j i) [
    | yes before ↦ behind j a before
    | no last ↦ let here : i ≡ j = omega arith in ap (pmm_get_bit z) (sym here) ∙ free
  ]

  pub search_lem :
      (n i c low : ℕ)
      → low + c ≡ i
      → c < count
      → i + n < 2 ^ 64
      → ((j : ℕ) → low ≤ j → j < i → pmm_get_bit z j ≡ false)
      → Outcome low (i + n) (search z count i n c)
  unfolding search
  search_lem zero i c low e short small behind = inr (refl, λ s above below. absurd (omega arith))
  search_lem (suc n) i c low e short small behind =
      let restart =
        search_lem n (i + 1) 0 (i + 1) (omega arith) (omega arith) (omega arith)
          (λ j a b. absurd (omega arith)) in
      let high : i + 1 + n ≡ i + suc n = omega arith in
      elim (Bool-cases (pmm_get_bit z i)) [
        | inl used ↦
            rw used (skip low i (i + suc n) _ (omega arith) (omega arith) used (rw high at restart))
        | inr free ↦ elim (Bool-cases (c + 1 == count)) [
          | inl enough ↦
              let full : c + 1 ≡ count = (==_iff _ _).0 enough in
              let start : u64 (sub64 i count + 1) ≡ low = omega arith in
              rw (free, enough, start)
                (inl (
                  low,
                  refl,
                  record {
                    above = omega arith;
                    below = omega arith;
                    is_free =
                        get_bit-all_free z count low
                          (λ j a b. extend low i free behind j a (omega arith));
                  },
                ))
          | inr more ↦
              rw (free, more, sym high)
                (search_lem n (i + 1) (c + 1) low (omega arith) (ground arith) (omega arith)
                  (extend low i free behind))
        ]
      ]
