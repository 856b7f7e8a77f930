-- ===== src/Vmm/Tree.antt =====
-- The tables that belong to a context of vmm.c form a tree: every table is reached by one way only.
-- The tree is kept as the place of each table: its depth, and the number that the indices on the
-- way to it spell.
use box_kernel.Base.{
  ℕ, ◌+◌, ◌*◌, ◌<◌, ◌≡◌, ◌≢◌, refl, sym, ◌∙◌, ap, inl, inr, Bool, true, false, Option, none, some,
  List, [], ◌∷◌, if◌then◌else◌, arith, update, update_ne, length, Bool-cases,
}
use mathlib.Core.Path.{subst}
use mathlib.Core.Option.{none-ne-some}
use box_kernel.Pmm.{Zone, pmm_page_size, pmm_get_bit}
use box_kernel.Vmm.{flag_present, flag_large_page, has_flag, vmm_pte_to_phys}
use box_kernel.Vmm.Entry.{number}

abbrev pub Memory : Type 0
Memory = ℕ → ℕ → ℕ

-- the place of a table, if it is one of the tree's
abbrev pub Places : Type 0
Places = ℕ → Option (ℕ × ℕ)

abbrev pub is_present : Memory → ℕ → ℕ → Bool
is_present m table i = has_flag (m table i) flag_present

abbrev pub child : Memory → ℕ → ℕ → ℕ
child m table i = vmm_pte_to_phys (m table i)

-- The tables of the tree with top `root`, whose pages the zone has handed out.
pub record IsTree (zone : Zone) (m : Memory) (root : ℕ) (places : Places) : Type 0 where
  pub top : places root ≡ some (0, 0)
  pub below :
      (t d n i : ℕ)
      → places t ≡ some (d, n)
      → d < 3
      → is_present m t i ≡ true
      → (places (child m t i) ≡ some (d + 1, number n i))
        × (has_flag (m t i) flag_large_page ≡ false)
  pub in_use :
      (page : ℕ)
      → page < zone.pages
      → places (zone.base + page * pmm_page_size) ≢ none
      → pmm_get_bit zone page ≡ true

-- the table at the end of a way down
unfoldable pub follow : Memory → ℕ → List ℕ → Option ℕ
follow m t [] = some t
follow m t (i ∷ path) =
    let rest = follow m (child m t i) path in if is_present m t i then rest else none

-- an entry of the table that was reached; 0, which is not present, when none was
abbrev pub read : Memory → Option ℕ → ℕ → ℕ
read m none j = 0
read m (some t) j = m t j

abbrev pub number_of : ℕ → List ℕ → ℕ
number_of n [] = n
number_of n (i ∷ path) = number_of (number n i) path

abbrev pub overwrite : Memory → ℕ → ℕ → ℕ → Memory
overwrite m t i e = update m t (update (m t) i e)

-- the depth of a place
abbrev pub depth : Option (ℕ × ℕ) → ℕ
depth none = 4
depth (some (d, n)) = d

abbrev pub prefix : Option (ℕ × ℕ) → ℕ
prefix none = 0
prefix (some (d, n)) = n

-- tables at two depths are two
pub depth-ne : (places : Places) (t u : ℕ) → depth (places t) ≢ depth (places u) → t ≢ u
depth-ne places t u h e = h (ap (λ v. depth (places v)) e)

-- what `IsTree` says of an entry of a row
abbrev pub Below : Places → ℕ → ℕ → ℕ → (ℕ → ℕ) → Type 0
Below places d n i row =
    has_flag (row i) flag_present ≡ true
    → (places (vmm_pte_to_phys (row i)) ≡ some (d + 1, number n i))
      × (has_flag (row i) flag_large_page ≡ false)

module _ {zone : Zone} {m : Memory} {root : ℕ} {places : Places}
    (tree : IsTree zone m root places) where
  -- a way down ends at the place that it spells
  pub follow_place :
      (path : List ℕ) (t d n x : ℕ)
      → places t ≡ some (d, n)
      → d + length path ≡ 3
      → follow m t path ≡ some x
      → places x ≡ some (3, number_of n path)
  unfolding follow
  follow_place [] t d n x h deep end =
      let here : t ≡ x = ground (arith, end) in
      let three : d ≡ 3 = omega (arith, deep) in rw here at h ∙ ap (λ e. some (e, n)) three
  follow_place (i ∷ path) t d n x h deep end = elim (Bool-cases (is_present m t i)) [
    | inl here ↦
        follow_place path (child m t i) (d + 1) (number n i) x
          (tree.below t d n i h (omega (arith, deep)) here).0 (omega (arith, deep)) (rw here at end)
    | inr gone ↦ absurd (none-ne-some _ (rw gone at end))
  ]

  -- A write to the entry `i` of the table `t` at the lowest level.
  module _ (t k i e : ℕ) (leaf : places t ≡ some (3, k)) where
    abbrev written : Memory
    written = overwrite m t i e

    -- the rows above the lowest level are as they were
    row_above : (u d n : ℕ) → places u ≡ some (d, n) → d < 3 → written u ≡ m u
    row_above u d n h high =
        update_ne m t u (update (m t) i e)
          (depth-ne places t u (λ same. absurd (omega (arith, ap depth leaf, ap depth h, same))))

    pub follow-written :
        (path : List ℕ) (u d n : ℕ)
        → places u ≡ some (d, n)
        → d + length path ≡ 3
        → follow written u path ≡ follow m u path
    unfolding follow
    follow-written [] u d n h deep = refl
    follow-written (a ∷ path) u d n h deep =
        ap
          (λ (row : ℕ → ℕ).
            if has_flag (row a) flag_present
            then follow written (vmm_pte_to_phys (row a)) path
            else none)
          (row_above u d n h (omega (arith, deep)))
        ∙ elim (Bool-cases (is_present m u a)) [
          | inl here ↦ rw here (
              follow-written path (child m u a) (d + 1) (number n a)
                (tree.below u d n a h (omega (arith, deep)) here).0 (omega (arith, deep)))
          | inr gone ↦ rw gone refl
        ]

    -- what the write leaves alone
    pub read-written_ne :
        (path : List ℕ) (u d n j : ℕ)
        → places u ≡ some (d, n)
        → d + length path ≡ 3
        → number (number_of n path) j ≢ number k i
        → read written (follow written u path) j ≡ read m (follow m u path) j
    read-written_ne path u d n j h deep other =
        ap (λ end. read written end j) (follow-written path u d n h deep)
        ∙ at_end (follow m u path) (λ x. follow_place path u d n x h deep)
      where
        at_end :
            (end : Option ℕ)
            → ((x : ℕ) → end ≡ some x → places x ≡ some (3, number_of n path))
            → read written end j ≡ read m end j
        at_end none place = refl
        at_end (some x) place =
            let there = place x refl in
            let other_cell : t ≡ x → i ≢ j = λ same index.
              let spelled : k ≡ number_of n path =
                sym (ap prefix leaf) ∙ ap (λ v. prefix (places v)) same ∙ ap prefix there in
              other (omega (arith, spelled, index)) in
            ground (arith, other_cell)

    pub read-written_self :
        (path : List ℕ) (u d n : ℕ)
        → places u ≡ some (d, n)
        → d + length path ≡ 3
        → follow m u path ≡ some t
        → read written (follow written u path) i ≡ e
    read-written_self path u d n h deep end =
        ap (λ end. read written end i) (follow-written path u d n h deep ∙ end) ∙ ground arith

    pub written-IsTree : IsTree zone written root places
    written-IsTree = record {
      top = tree.top;
      below = λ u d n a h high here.
          subst (Below places d n a) (sym (row_above u d n h high)) (tree.below u d n a h high)
            here;
      in_use = tree.in_use;
    }
