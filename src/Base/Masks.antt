-- ===== src/Base/Masks.antt =====
-- `x & (2^k - 1)` is the remainder by `2^k`.
use Prim.Native.Nat.{
  ℕ, zero, suc, ◌+◌, ◌-◌, ◌*◌, ◌/◌, ◌%◌, ◌^◌, ◌≤◌, ◌<◌, min, bit_and, digits, bit_and-bitwise,
}
use mathlib.Core.Path.{◌≡◌, sym, ◌∙◌, ap}
use native.Mathlib.Nat.{
  pow-suc, one-le-pow, add-mul-mod_self_right, mod-eq_of_lt, mod-lt, mod-add-div', zero-mod,
}
use native.Mathlib.Omega.{arith}

abbrev digitwise_and : ℕ → ℕ → ℕ → ℕ
digitwise_and fuel a b = digits (λ _. zero) min fuel a b

pub two_pow_suc : (k : ℕ) → 2 ^ suc k ≡ 2 * 2 ^ k
two_pow_suc k = omega (arith, pow-suc 2 k)

-- halving `a` halves the remainder by an even modulus
pub mod_double : (p a : ℕ) → 0 < p → a % (2 * p) ≡ a / 2 % p * 2 + a % 2
mod_double p a pos =
    ap (λ (n : ℕ). n % (2 * p)) regroup
    ∙ add-mul-mod_self_right (a / 2 % p * 2 + a % 2) (a / 2 / p) (2 * p)
    ∙ mod-eq_of_lt (omega (arith, mod-lt (a / 2) pos))
  where
    regroup : a ≡ a / 2 % p * 2 + a % 2 + a / 2 / p * (2 * p)
    regroup = omega (arith, mod-add-div' (a / 2) p)

digitwise_and-mask : (fuel k a : ℕ) → a ≤ fuel → digitwise_and fuel a (2 ^ k - 1) ≡ a % 2 ^ k
digitwise_and-mask zero k zero h = sym (zero-mod (2 ^ k))
digitwise_and-mask zero k (suc a) h = absurd (omega arith)
digitwise_and-mask (suc f) k zero h = sym (zero-mod (2 ^ k))
digitwise_and-mask (suc f) zero (suc a) h =
    omega (arith, digitwise_and-mask f 0 (suc a / 2) (omega arith))
digitwise_and-mask (suc f) (suc k) (suc a) h =
    let halved : (2 ^ suc k - 1) / 2 ≡ 2 ^ k - 1 = omega (arith, two_pow_suc k, one-le-pow k 2) in
    let odd : (2 ^ suc k - 1) % 2 ≡ 1 = omega (arith, two_pow_suc k, one-le-pow k 2) in
    rw (halved, odd, digitwise_and-mask f k (suc a / 2) (omega arith), two_pow_suc k)
      (omega (arith, mod_double (2 ^ k) (suc a) (one-le-pow k 2 (omega arith))))

pub bit_and-mask : (k a : ℕ) → bit_and a (2 ^ k - 1) ≡ a % 2 ^ k
bit_and-mask k a = bit_and-bitwise a (2 ^ k - 1) ∙ digitwise_and-mask a k a (omega arith)
