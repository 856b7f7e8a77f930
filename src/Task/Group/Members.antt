-- ===== src/Task/Group/Members.antt =====
-- The array of a group's tasks as a list: task.c, the loops of `task_group_add` and
-- `task_group_remove`.
use box_kernel.Base.{
  ℕ, zero, suc, ◌+◌, ◌-◌, ◌≤◌, ◌<◌, ◌≡◌, ◌≢◌, ◌⊎◌, refl, sym, ◌∙◌, ap, inl, inr, Bool, true, false,
  ◌||◌, Option, none, some, List, [], ◌∷◌, ◌++◌, ◌==◌, ==_iff, ==→ne, if◌then◌else◌, Bool-cases,
  update, update_ne, update_self, IsFirst, NoneFrom, found, absent, first_from-first,
  first_from-absent, first_from-Searched, arith,
}
use box_kernel.Task.{TaskGroup}
use box_kernel.Task.Group.{shift, without_at, without_member, with_member}

-- the `n` entries from `i` on
abbrev pub entries : (ℕ → ℕ) → ℕ → ℕ → List ℕ
entries ids i zero = []
entries ids i (suc n) = ids i ∷ entries ids (i + 1) n

abbrev pub members : TaskGroup → List ℕ
members g = entries g.task_ids 0 g.task_count

abbrev pub elem : ℕ → List ℕ → Bool
elem x [] = false
elem x (y ∷ ys) = (y == x) || elem x ys

abbrev pub remove_first : ℕ → List ℕ → List ℕ
remove_first x [] = []
remove_first x (y ∷ ys) = let rest = y ∷ remove_first x ys in if y == x then ys else rest

entries-next :
    (f g : ℕ → ℕ) (i n : ℕ)
    → ((j : ℕ) → i ≤ j → j < i + n → f j ≡ g (j + 1))
    → entries f i n ≡ entries g (i + 1) n
entries-next f g i zero same = refl
entries-next f g i (suc n) same =
    let rest = entries-next f g (i + 1) n (λ j l h. same j (omega arith) (omega arith)) in
    rw (same i (omega arith) (omega arith)) (rw rest refl)

entries-same :
    (f g : ℕ → ℕ) (i n : ℕ)
    → ((j : ℕ) → i ≤ j → j < i + n → f j ≡ g j)
    → entries f i n ≡ entries g i n
entries-same f g i zero same = refl
entries-same f g i (suc n) same =
    let rest = entries-same f g (i + 1) n (λ j l h. same j (omega arith) (omega arith)) in
    rw (same i (omega arith) (omega arith)) (rw rest refl)

shift-below : (ids : ℕ → ℕ) (k n j : ℕ) → j < k → shift ids k n j ≡ ids j
unfolding shift
shift-below ids k zero j h = refl
shift-below ids k (suc n) j h =
    shift-below (update ids k (ids (k + 1))) (k + 1) n j (omega arith)
    ∙ update_ne ids k j (ids (k + 1)) (omega arith)

shift-within : (ids : ℕ → ℕ) (k n j : ℕ) → k ≤ j → j < k + n → shift ids k n j ≡ ids (j + 1)
unfolding shift
shift-within ids k zero j l h = absurd (omega arith)
shift-within ids k (suc n) j l h =
    let moved = update ids k (ids (k + 1)) in
    elim (Bool-cases (k == j)) [
      | inl here ↦
          let e : k ≡ j = (==_iff k j).0 here in
          shift-below moved (k + 1) n j (omega arith) ∙ rw (sym e) (update_self ids k (ids (k + 1)))
      | inr later ↦
          shift-within moved (k + 1) n j (ground arith) (omega arith)
          ∙ update_ne ids k (j + 1) (ids (k + 1)) (omega arith)
    ]

-- Shifting from the first place of an id takes its first entry out.
entries-shift :
    (ids : ℕ → ℕ) (x k i n : ℕ)
    → IsFirst (λ j. ids j == x) i (suc n) k
    → entries (shift ids k (i + n - k)) i n ≡ remove_first x (entries ids i (suc n))
entries-shift ids x k i zero f =
    let last : i ≡ k = omega (arith, f.from, f.below) in rw last (rw f.passes refl)
entries-shift ids x k i (suc n) f = elim (Bool-cases (i == k)) [
  | inl here ↦
      let e : i ≡ k = (==_iff i k).0 here in
      let hit : (ids i == x) ≡ true = rw e f.passes in
      rw hit (
        entries-next (shift ids k (i + suc n - k)) ids i (suc n)
          (λ j l h. shift-within ids k (i + suc n - k) j (omega arith) (omega arith)))
  | inr later ↦
      let off : i ≢ k = ==→ne i k later in
      let below : i < k = omega (arith, off, f.from) in
      let same : i + 1 + n - k ≡ i + suc n - k = omega arith in
      let rest = entries-shift ids x k (i + 1) n (record {
        passes = f.passes;
        from = omega arith;
        below = omega (arith, f.below);
        before = λ j l h. f.before j (omega arith) h;
      }) in
      rw (f.before i (omega arith) below) (
        rw (shift-below ids k (i + suc n - k) i below)
          (ap (λ l. ids i ∷ l) (ap (λ d. entries (shift ids k d) (i + 1) n) (sym same) ∙ rest)))
]

-- An id is among the entries where the search finds a place for it.
elem-first :
    (ids : ℕ → ℕ) (x k i n : ℕ) → IsFirst (λ j. ids j == x) i n k → elem x (entries ids i n) ≡ true
elem-first ids x k i zero f = absurd (omega (arith, f.from, f.below))
elem-first ids x k i (suc n) f = elim (Bool-cases (i == k)) [
  | inl here ↦ let e : i ≡ k = (==_iff i k).0 here in rw e (rw f.passes refl)
  | inr later ↦
      let off : i ≢ k = ==→ne i k later in
      let below : i < k = omega (arith, off, f.from) in
      let rest = elem-first ids x k (i + 1) n (record {
        passes = f.passes;
        from = omega arith;
        below = omega (arith, f.below);
        before = λ j l h. f.before j (omega arith) h;
      }) in
      rw (f.before i (omega arith) below) rest
]

elem-none :
    (ids : ℕ → ℕ) (x i n : ℕ) → NoneFrom (λ j. ids j == x) i n → elem x (entries ids i n) ≡ false
elem-none ids x i zero none_at = refl
elem-none ids x i (suc n) none_at =
    rw (none_at i (omega arith) (omega arith))
      (elem-none ids x (i + 1) n (λ j l h. none_at j (omega arith) (omega arith)))

entries-removed :
    (ids : ℕ → ℕ) (x k c : ℕ)
    → IsFirst (λ j. ids j == x) 0 c k
    → entries (shift ids k (c - 1 - k)) 0 (c - 1) ≡ remove_first x (entries ids 0 c)
entries-removed ids x k zero f = absurd (omega (arith, f.below))
entries-removed ids x k (suc n) f =
    let one_less : suc n - 1 ≡ n = omega arith in
    let same : n - k ≡ 0 + n - k = omega arith in
    rw one_less (rw same (entries-shift ids x k 0 n f))

-- Removing an id from a group takes its first entry out of the list of the members, and says so; a
-- group without the id is refused.
pub without_member_lem :
    (g : TaskGroup) (x : ℕ)
    → ((elem x (members g) ≡ true)
        × ((g' : TaskGroup) × (without_member g x ≡ some g')
            × (members g' ≡ remove_first x (members g))
            × (g'.task_count + 1 ≡ g.task_count)
            × (g'.group_id ≡ g.group_id)))
      ⊎ ((elem x (members g) ≡ false) × (without_member g x ≡ none))
unfolding without_member
without_member_lem g x = elim (first_from-Searched (λ j. g.task_ids j == x) 0 g.task_count) [
  | found k f ↦ inl (
    elem-first g.task_ids x k 0 g.task_count f,
    (
      without_at g k,
      ap (λ (o : Option ℕ). elim o [ none ↦ none | some j ↦ some (without_at g j) ])
          (first_from-first (λ j. g.task_ids j == x) 0 g.task_count k f),
      entries-removed g.task_ids x k g.task_count f,
      omega (arith, f.below),
      refl,
    ),
  )
  | absent none_at ↦ inr (
    elem-none g.task_ids x 0 g.task_count none_at,
    ap (λ (o : Option ℕ). elim o [ none ↦ none | some j ↦ some (without_at g j) ])
        (first_from-absent (λ j. g.task_ids j == x) 0 g.task_count none_at),
  )
]

entries-snoc : (ids : ℕ → ℕ) (i n : ℕ) → entries ids i (suc n) ≡ entries ids i n ++ ids (i + n) ∷ []
entries-snoc ids i zero = ap (λ j. ids j ∷ []) (omega arith)
entries-snoc ids i (suc n) =
    ap (λ l. ids i ∷ l) (entries-snoc ids (i + 1) n)
    ∙ ap (λ j. ids i ∷ entries ids (i + 1) n ++ ids j ∷ []) (omega arith)

-- A new member is the last one.
pub members-with_member : (g : TaskGroup) (x : ℕ) → members (with_member g x) ≡ members g ++ x ∷ []
members-with_member g x =
    let ids = update g.task_ids g.task_count x in
    let last : ids (0 + g.task_count) ≡ x =
      ap ids (omega arith) ∙ update_self g.task_ids g.task_count x in
    let before =
      entries-same ids g.task_ids 0 g.task_count
        (λ j l h. update_ne g.task_ids g.task_count j x (omega arith)) in
    ap (entries ids 0) {y = suc g.task_count} (omega arith)
    ∙ entries-snoc ids 0 g.task_count
    ∙ ap (λ y. entries ids 0 g.task_count ++ y ∷ []) last
    ∙ ap (λ l. l ++ x ∷ []) before

pub elem-snoc : (x : ℕ) (ys : List ℕ) → elem x (ys ++ x ∷ []) ≡ true
elem-snoc x [] = ground arith
elem-snoc x (y ∷ ys) = ground (arith, elem-snoc x ys)

pub remove_first-snoc :
    (x : ℕ) (ys : List ℕ) → elem x ys ≡ false → remove_first x (ys ++ x ∷ []) ≡ ys
remove_first-snoc x [] out = let hit : (x == x) ≡ true = ground arith in rw hit refl
remove_first-snoc x (y ∷ ys) out =
    let off : (y == x) ≡ false = ground (arith, out) in
    rw off (ap (λ l. y ∷ l) (remove_first-snoc x ys (ground (arith, out))))
