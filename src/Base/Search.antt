-- ===== src/Base/Search.antt =====
-- The loop over indices that stops at the first one of which a test holds.
use Prim.Native.Nat.{ℕ, zero, suc, ◌+◌, ◌≤◌, ◌<◌}
use mathlib.Core.Path.{◌≡◌, refl, ◌∙◌, sym}
use mathlib.Core.Logic.{inl, inr}
use mathlib.Core.Bool.{Bool, true, false}
use mathlib.Core.Option.{Option, none, some}
use native.Mathlib.Omega.{arith}
use box_kernel.Base.Tests.{◌==◌, if◌then◌else◌, Bool-cases}

-- the first of the `n` indices from `i` on
unfoldable pub first_from : (ℕ → Bool) → ℕ → ℕ → Option ℕ
first_from test i zero = none
first_from test i (suc n) = let rest = first_from test (i + 1) n in if test i then some i else rest

-- `k` is the first index that passes the test
pub record IsFirst (test : ℕ → Bool) (i n k : ℕ) : Type 0 where
  pub passes : test k ≡ true
  pub from : i ≤ k
  pub below : k < i + n
  pub before : (j : ℕ) → i ≤ j → j < k → test j ≡ false

-- no index passes the test
abbrev pub NoneFrom : (ℕ → Bool) → ℕ → ℕ → Type 0
NoneFrom test i n = (j : ℕ) → i ≤ j → j < i + n → test j ≡ false

pub first_from-first :
    (test : ℕ → Bool) (i n k : ℕ) → IsFirst test i n k → first_from test i n ≡ some k
unfolding first_from
first_from-first test i zero k f = absurd (omega (arith, f.from, f.below))
first_from-first test i (suc n) k f = elim (Bool-cases (i == k)) [
  | inl here ↦ let e : i ≡ k = ground arith in rw e (rw f.passes refl)
  | inr later ↦
      let next = first_from-first test (i + 1) n k (record {
        passes = f.passes;
        from = ground (arith, f.from);
        below = omega (arith, f.below);
        before = λ j l h. f.before j (omega arith) h;
      }) in
      rw (f.before i (omega arith) (ground (arith, f.from))) next
]

pub first_from-absent : (test : ℕ → Bool) (i n : ℕ) → NoneFrom test i n → first_from test i n ≡ none
unfolding first_from
first_from-absent test i zero none_at = refl
first_from-absent test i (suc n) none_at =
    rw (none_at i (omega arith) (omega arith))
      (first_from-absent test (i + 1) n (λ j l h. none_at j (omega arith) (omega arith)))

-- what the search has found
pub data Searched (test : ℕ → Bool) (i n : ℕ) : Type 0 where
  found : (k : ℕ) → IsFirst test i n k → Searched test i n
  absent : NoneFrom test i n → Searched test i n

pub first_from-Searched : (test : ℕ → Bool) (i n : ℕ) → Searched test i n
first_from-Searched test i zero = absent (λ j l h. absurd (omega arith))
first_from-Searched test i (suc n) = elim (Bool-cases (test i)) [
  | inl here ↦ found i (record {
    passes = here;
    from = omega arith;
    below = omega arith;
    before = λ j l h. absurd (omega arith);
  })
  | inr off ↦ elim (first_from-Searched test (i + 1) n) [
    | found k f ↦ found k (record {
      passes = f.passes;
      from = omega (arith, f.from);
      below = omega (arith, f.below);
      before = λ j l h. elim (Bool-cases (i == j)) [
        | inl e ↦ let e' : i ≡ j = ground arith in rw e' at off
        | inr ne ↦ f.before j (ground arith) h
      ];
    })
    | absent none_at ↦ absent (λ j l h. elim (Bool-cases (i == j)) [
      | inl e ↦ let e' : i ≡ j = ground arith in rw e' at off
      | inr ne ↦ none_at j (ground arith) (omega arith)
    ])
  ]
]

-- Tests that agree find the same.
pub first_from-same :
    (test test' : ℕ → Bool) (i n : ℕ)
    → ((j : ℕ) → i ≤ j → j < i + n → test j ≡ test' j)
    → first_from test i n ≡ first_from test' i n
first_from-same test test' i n same = elim (first_from-Searched test i n) [
  | found k f ↦
      first_from-first test i n k f
      ∙ sym (
          first_from-first test' i n k (record {
            passes = sym (same k f.from f.below) ∙ f.passes;
            from = f.from;
            below = f.below;
            before = λ j l h. sym (same j l (omega (arith, f.below))) ∙ f.before j l h;
          }))
  | absent none_at ↦
      first_from-absent test i n none_at
      ∙ sym (first_from-absent test' i n (λ j l h. sym (same j l h) ∙ none_at j l h))
]
