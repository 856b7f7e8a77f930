-- ===== src/Base/Update.antt =====
-- Arrays as functions of the index, with a write at one place, and sums over the first `n`.
use Prim.Native.Nat.{ℕ, zero, suc, ◌+◌, ◌*◌, ◌≤◌, ◌<◌}
use mathlib.Core.Path.{◌≡◌, refl}
use mathlib.Core.Logic.{◌≢◌, inl, inr}
use native.Mathlib.Omega.{arith}
use box_kernel.Base.Tests.{◌==◌, if◌then◌else◌, Bool-cases, ==_iff}

module _ {ℓ} {A : Type ℓ} where
  abbrev pub update : (ℕ → A) → ℕ → A → ℕ → A
  update f i a j = if i == j then a else f j

  pub update_self : (f : ℕ → A) (i : ℕ) (a : A) → update f i a i ≡ a
  update_self f i a = ground arith

  pub update_ne : (f : ℕ → A) (i j : ℕ) (a : A) → i ≢ j → update f i a j ≡ f j
  update_ne f i j a h = ground arith

-- f 0 + … + f (n - 1)
pub sum_below : ℕ → (ℕ → ℕ) → ℕ
sum_below zero f = 0
sum_below (suc n) f = sum_below n f + f n

sum_below-eq_of_above :
    (n i : ℕ) (f g : ℕ → ℕ) → n ≤ i → ((j : ℕ) → i ≢ j → f j ≡ g j) → sum_below n f ≡ sum_below n g
unfolding sum_below
sum_below-eq_of_above zero i f g h same = refl
sum_below-eq_of_above (suc n) i f g h same =
    omega (arith, sum_below-eq_of_above n i f g (omega arith) same, same n (omega arith))

-- A sum whose terms agree but at `i` changes by what that term changes.
pub sum_below-change :
    (n i : ℕ) (f g : ℕ → ℕ)
    → i < n
    → ((j : ℕ) → i ≢ j → f j ≡ g j)
    → sum_below n f + g i ≡ sum_below n g + f i
unfolding sum_below
sum_below-change zero i f g h same = absurd (omega arith)
sum_below-change (suc n) i f g h same = elim (Bool-cases (i == n)) [
  | inl last ↦
      let e : i ≡ n = ground arith in
      rw e (omega (arith, sum_below-eq_of_above n n f g (omega arith) (rw e at same)))
  | inr below ↦ omega (arith, sum_below-change n i f g (ground arith) same, same n (ground arith))
]

pub sum_below-le : (n c : ℕ) (f : ℕ → ℕ) → ((i : ℕ) → f i ≤ c) → sum_below n f ≤ n * c
unfolding sum_below
sum_below-le zero c f h = omega arith
sum_below-le (suc n) c f h = grind (arith, sum_below-le n c f h, h n)

pub sum_below-zero : (n : ℕ) (f : ℕ → ℕ) → ((i : ℕ) → f i ≡ 0) → sum_below n f ≡ 0
unfolding sum_below
sum_below-zero zero f h = refl
sum_below-zero (suc n) f h = omega (arith, sum_below-zero n f h, h n)

pub term-le-sum_below : (n i : ℕ) (f : ℕ → ℕ) → i < n → f i ≤ sum_below n f
unfolding sum_below
term-le-sum_below zero i f h = absurd (omega arith)
term-le-sum_below (suc n) i f h = elim (Bool-cases (i == n)) [
  | inl last ↦ let e : i ≡ n = (==_iff i n).0 last in rw e (omega arith)
  | inr below ↦ omega (arith, term-le-sum_below n i f (ground arith))
]
