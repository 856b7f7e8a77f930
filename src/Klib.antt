-- ===== src/Klib.antt =====
-- String functions of src/lib/kernel/klib.c. A `char*` is the list of the bytes from it on; what
-- stands behind the list's end reads as the terminator.
use box_kernel.Base.{ℕ, zero, suc, ◌-◌, Bool, not, ◌&&◌, List, [], ◌∷◌, leb, ◌==◌, if◌then◌else◌}
pub mod Strings
pub mod Heap

pub data ℤ : Type 0 where
  pos : ℕ → ℤ
  negsuc : ℕ → ℤ

-- a - b, as an integer
abbrev pub sub_ℕ : ℕ → ℕ → ℤ
sub_ℕ a b = if leb b a then pos (a - b) else negsuc (b - a - 1)

unfoldable pub strcmp : List ℕ → List ℕ → ℤ
strcmp [] [] = sub_ℕ 0 0
strcmp [] (b ∷ t) = sub_ℕ 0 b
strcmp (a ∷ s) [] = sub_ℕ a 0
strcmp (a ∷ s) (b ∷ t) = if not (a == 0) && (a == b) then strcmp s t else sub_ℕ a b
