-- ===== src/Base/Fields.antt =====
-- `&` and `|` of two numbers, field by field.
use Prim.Native.Nat.{
  ℕ, zero, suc, ◌+◌, ◌*◌, ◌/◌, ◌%◌, ◌^◌, ◌≤◌, min, max, bit_and, bit_or, digits, bitwise,
  bit_and-bitwise, bit_or-bitwise,
}
use mathlib.Core.Path.{◌≡◌, refl, sym, ◌∙◌, ap}
use native.Mathlib.Nat.{one-le-pow, le_refl, div-div-eq-div-mul}
use native.Mathlib.Omega.{arith}
use box_kernel.Base.Masks.{mod_double, two_pow_suc, bit_and-mask}

doubled : (q k : ℕ) → q * 2 ^ suc k ≡ 2 * (q * 2 ^ k)
doubled q k = omega (arith, ap (λ (t : ℕ). q * t) (two_pow_suc k))

module _ (z : ℕ → ℕ) (f : ℕ → ℕ → ℕ) where
  -- fuel beyond the first number adds nothing
  spare_fuel : (n m a b : ℕ) → a ≤ n → a ≤ m → digits z f n a b ≡ digits z f m a b
  spare_fuel zero zero zero b p q = refl
  spare_fuel zero zero (suc a) b p q = refl
  spare_fuel zero (suc m) zero b p q = refl
  spare_fuel zero (suc m) (suc a) b p q = absurd (omega arith)
  spare_fuel (suc n) zero zero b p q = refl
  spare_fuel (suc n) zero (suc a) b p q = absurd (omega arith)
  spare_fuel (suc n) (suc m) zero b p q = refl
  spare_fuel (suc n) (suc m) (suc a) b p q =
      ap (λ (t : ℕ). t * 2 + f (suc a % 2) (b % 2))
        (spare_fuel n m (suc a / 2) (b / 2) (omega arith) (omega arith))

  lowest_digit :
      (a b : ℕ)
      → bitwise z f (suc a) b ≡ bitwise z f (suc a / 2) (b / 2) * 2 + f (suc a % 2) (b % 2)
  lowest_digit a b =
      ap (λ (t : ℕ). t * 2 + f (suc a % 2) (b % 2))
        (spare_fuel a (suc a / 2) (suc a / 2) (b / 2) (omega arith) (le_refl _))

bit_and-digit : (a b : ℕ) → bit_and a b ≡ bit_and (a / 2) (b / 2) * 2 + min (a % 2) (b % 2)
bit_and-digit zero b = simp bit_and-bitwise (omega arith)
bit_and-digit (suc a) b = simp bit_and-bitwise (lowest_digit (λ _. zero) min a b)

bit_or-digit : (a b : ℕ) → bit_or a b ≡ bit_or (a / 2) (b / 2) * 2 + max (a % 2) (b % 2)
bit_or-digit zero b = simp bit_or-bitwise (omega arith)
bit_or-digit (suc a) b = simp bit_or-bitwise (lowest_digit (λ y. y) max a b)

-- An operation on the digits works on the digits above the k-th and below it apart.
module _ (op f : ℕ → ℕ → ℕ)
    (digit : (a b : ℕ) → op a b ≡ op (a / 2) (b / 2) * 2 + f (a % 2) (b % 2))
    (none_of_none : op 0 0 ≡ 0) where
  op_split : (k a b : ℕ) → op a b ≡ op (a / 2 ^ k) (b / 2 ^ k) * 2 ^ k + op (a % 2 ^ k) (b % 2 ^ k)
  op_split zero a b = ground (arith, none_of_none)
  op_split (suc k) a b =
      let upper : op (a / 2 ^ suc k) (b / 2 ^ suc k) * 2 ^ suc k
          ≡ 2 * (op (a / 2 / 2 ^ k) (b / 2 / 2 ^ k) * 2 ^ k) =
        rw (halved a, halved b) (omega (arith, doubled (op (a / 2 / 2 ^ k) (b / 2 / 2 ^ k)) k)) in
      let lower : op (a % 2 ^ suc k) (b % 2 ^ suc k)
          ≡ op (a / 2 % 2 ^ k) (b / 2 % 2 ^ k) * 2 + f (a % 2) (b % 2) =
        digit (a % 2 ^ suc k) (b % 2 ^ suc k)
        ∙ rw (low_half a, low_half b, low_digit a, low_digit b) refl in
      omega (arith, digit a b, op_split k (a / 2) (b / 2), upper, lower)
    where
      halved : (x : ℕ) → x / 2 ^ suc k ≡ x / 2 / 2 ^ k
      halved x = ap (λ (p : ℕ). x / p) (two_pow_suc k) ∙ sym (div-div-eq-div-mul x 2 (2 ^ k))

      low : (x : ℕ) → x % 2 ^ suc k ≡ x / 2 % 2 ^ k * 2 + x % 2
      low x =
          ap (λ (p : ℕ). x % p) (two_pow_suc k)
          ∙ mod_double (2 ^ k) x (one-le-pow k 2 (omega arith))

      low_half : (x : ℕ) → x % 2 ^ suc k / 2 ≡ x / 2 % 2 ^ k
      low_half x = omega (arith, low x)

      low_digit : (x : ℕ) → x % 2 ^ suc k % 2 ≡ x % 2
      low_digit x = omega (arith, low x)

pub bit_and_split :
    (k a b : ℕ)
    → bit_and a b ≡ bit_and (a / 2 ^ k) (b / 2 ^ k) * 2 ^ k + bit_and (a % 2 ^ k) (b % 2 ^ k)
bit_and_split = op_split bit_and min bit_and-digit refl

pub bit_or_split :
    (k a b : ℕ)
    → bit_or a b ≡ bit_or (a / 2 ^ k) (b / 2 ^ k) * 2 ^ k + bit_or (a % 2 ^ k) (b % 2 ^ k)
bit_or_split = op_split bit_or max bit_or-digit refl

pub bit_and-none : (a : ℕ) → bit_and a 0 ≡ 0
bit_and-none a = bit_and-mask 0 a ∙ omega arith

pub bit_or-none : (a : ℕ) → bit_or a 0 ≡ a
bit_or-none a = below a a (le_refl _)
  where
    below : (n m : ℕ) → m ≤ n → bit_or m 0 ≡ m
    below n zero h = refl
    below zero (suc m) h = absurd (omega arith)
    below (suc n) (suc m) h =
        omega (arith, bit_or-digit (suc m) 0, below n (suc m / 2) (omega arith))

pub none-bit_or : (a : ℕ) → bit_or 0 a ≡ a
none-bit_or a = simp bit_or-bitwise refl

pub bit_and_one : (a : ℕ) → bit_and a 1 ≡ a % 2
bit_and_one a = bit_and-mask 1 a
