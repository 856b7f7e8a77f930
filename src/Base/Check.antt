-- ===== src/Base/Check.antt =====
-- A test of every number of a range, by evaluation.
use Prim.Native.Nat.{ℕ, zero, suc, ◌+◌, ◌≤◌, ◌<◌}
use mathlib.Core.Path.{◌≡◌, subst}
use mathlib.Core.Bool.{Bool, true, ◌&&◌}
use native.Mathlib.Omega.{arith}
use native.Mathlib.Decide.{dec_lt}

-- whether a test holds of the `n` numbers from `first` on
unfoldable pub every : (ℕ → Bool) → ℕ → ℕ → Bool
every test first zero = true
every test first (suc n) = let rest = every test (first + 1) n in test first && rest

pub every_lem :
    (test : ℕ → Bool) (n first i : ℕ)
    → every test first n ≡ true
    → first ≤ i
    → i < first + n
    → test i ≡ true
unfolding every
every_lem test zero first i h low high = absurd (omega arith)
every_lem test (suc n) first i h low high = elim (dec_lt first i) [
  | yes later ↦ every_lem test n (first + 1) i (ground arith) (omega arith) (omega arith)
  | no same ↦ let here : first ≡ i = omega arith in subst (λ k. test k ≡ true) here (ground arith)
]
