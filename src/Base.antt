-- ===== src/Base.antt =====
-- The names that every module shares: the libraries', passed on, and those of the children, which
-- hold the Boolean tests, lists with native indices, counters of fixed width, bit masks and the
-- update of a function at one index, tests of a range by evaluation and the search for an index.
mod Tests
mod Lists
mod Words
mod Masks
mod Fields
mod Update
mod Search
mod Check
pub use Tests.*
pub use Lists.*
pub use Words.*
pub use Masks.*
pub use Fields.*
pub use Update.*
unfoldable pub use Search.*
unfoldable pub use Check.*
pub use Prim.Native.Nat.{ℕ, zero, suc, ◌+◌, ◌-◌, ◌*◌, ◌/◌, ◌%◌, ◌^◌, ◌≤◌, ◌<◌, min}
pub use Prim.Native.Nat.{bit_and, bit_or, bit_xor}
pub use mathlib.Core.Path.{◌≡◌, refl, sym, ap, ◌∙◌}
pub use mathlib.Core.Logic.{◌≢◌, ◌⊎◌, inl, inr}
pub use mathlib.Core.Bool.{Bool, true, false, not, ◌&&◌, ◌||◌}
pub use mathlib.Core.Option.{Option, none, some}
pub use mathlib.Core.List.{List, [], ◌∷◌, ◌++◌, append-nil, append_assoc}
pub use native.Mathlib.Omega.{arith}
