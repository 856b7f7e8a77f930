-- ===== src/Klib/Strings.antt =====
-- What `strcmp` of klib.c compares: the texts up to their terminators.
use mathlib.Core.Logic.{◌↔◌}
use box_kernel.Base.{ℕ, ◌≡◌, refl, arith, List, [], ◌∷◌, ◌==◌, if◌then◌else◌}
use box_kernel.Klib.{pos, strcmp}

-- the text of a `char*`
abbrev pub c_string : List ℕ → List ℕ
c_string [] = []
c_string (a ∷ s) = if a == 0 then [] else a ∷ c_string s

pub strcmp-eq-zero : (s t : List ℕ) → strcmp s t ≡ pos 0 → c_string s ≡ c_string t
unfolding strcmp
strcmp-eq-zero [] [] h = refl
strcmp-eq-zero [] (b ∷ t) h = ground arith
strcmp-eq-zero (a ∷ s) [] h = ground arith
strcmp-eq-zero (a ∷ s) (b ∷ t) h = ground (arith, strcmp-eq-zero s t)

pub strcmp-zero_of_eq : (s t : List ℕ) → c_string s ≡ c_string t → strcmp s t ≡ pos 0
unfolding strcmp
strcmp-zero_of_eq [] [] h = refl
strcmp-zero_of_eq [] (b ∷ t) h = ground arith
strcmp-zero_of_eq (a ∷ s) [] h = ground arith
strcmp-zero_of_eq (a ∷ s) (b ∷ t) h = ground (arith, strcmp-zero_of_eq s t)

-- `strcmp` returns 0 exactly for equal texts, whatever stands behind their terminators.
pub strcmp-zero_iff : (s t : List ℕ) → (strcmp s t ≡ pos 0) ↔ (c_string s ≡ c_string t)
strcmp-zero_iff s t = (strcmp-eq-zero s t, strcmp-zero_of_eq s t)
