-- ===== src/Vmm/Grow.antt =====
-- A new table in the tree of a context: vmm.c links a table fresh from the physical memory manager,
-- all entries 0, into an entry that was not present. No entry at the lowest level changes.
use mathlib.Core.Path.{subst}
use mathlib.Core.Bool.{false≢true}
use mathlib.Core.Option.{none-ne-some}
use box_kernel.Base.{
  ℕ, ◌+◌, ◌*◌, ◌<◌, ◌≡◌, ◌≢◌, refl, sym, ◌∙◌, ap, inl, inr, true, false, ◌&&◌, ◌||◌, none, some,
  List, [], ◌∷◌, ◌==◌, arith, update, update_self, update_ne, length, Bool-cases, ==_iff, ==→ne,
}
use box_kernel.Pmm.{Zone, pmm_page_size, pmm_get_bit}
use box_kernel.Pmm.Alloc.{in_run}
use box_kernel.Vmm.{flag_present, flag_large_page, has_flag, vmm_pte_to_phys}
use box_kernel.Vmm.Entry.{number}
use box_kernel.Vmm.Tree.{
  Memory, Places, is_present, child, IsTree, follow, read, depth, prefix, depth-ne,
}

-- What a walk that makes tables does to the tree: no table moves, no present entry and no entry at
-- the lowest level changes.
pub record Grows (m m' : Memory) (places places' : Places) : Type 0 where
  pub stay : (t : ℕ) (x : ℕ × ℕ) → places t ≡ some x → places' t ≡ some x
  pub kept : (t i : ℕ) (x : ℕ × ℕ) → places t ≡ some x → is_present m t i ≡ true → m' t i ≡ m t i
  pub same_read :
      (path : List ℕ) (t d n j : ℕ)
      → places t ≡ some (d, n)
      → d + length path ≡ 3
      → read m' (follow m' t path) j ≡ read m (follow m t path) j

pub Grows-refl : {m : Memory} {places : Places} → Grows m m places places
Grows-refl = record {
  stay = λ t x h. h;
  kept = λ t i x h here. refl;
  same_read = λ path t d n j h deep. refl;
}

pub Grows-trans :
    {m m' m'' : Memory} {places places' places'' : Places}
    → Grows m m' places places'
    → Grows m' m'' places' places''
    → Grows m m'' places places''
Grows-trans {m} {m'} {m''} g g' = record {
  stay = λ t x h. g'.stay t x (g.stay t x h);
  kept = λ t i x h here.
      let once = g.kept t i x h here in
      g'.kept t i x (g.stay t x h) (ap (λ e. has_flag e flag_present) once ∙ here) ∙ once;
  same_read = λ path t d n j h deep.
      g'.same_read path t d n j (g.stay t (d, n) h) deep ∙ g.same_read path t d n j h deep;
}

abbrev cleared : Memory → ℕ → Memory
cleared m fresh = update m fresh (λ _. 0)

-- the memory with the new table linked in, and the places
abbrev pub grow : Memory → ℕ → ℕ → ℕ → ℕ → Memory
grow m t i fresh link = update (cleared m fresh) t (update (cleared m fresh t) i link)

abbrev pub grow_places : Places → ℕ → ℕ → ℕ → ℕ → Places
grow_places places d n i fresh = update places fresh (some (d + 1, number n i))

-- `fresh` is linked into the entry `i` of the table `t`.
module _ {zone : Zone} {m : Memory} {root : ℕ} {places : Places} (tree : IsTree zone m root places)
    (t d n i fresh link : ℕ) (place : places t ≡ some (d, n)) (high : d < 3)
    (gone : is_present m t i ≡ false) (new : places fresh ≡ none)
    (linked : vmm_pte_to_phys link ≡ fresh) (small : has_flag link flag_large_page ≡ false)
    (present : has_flag link flag_present ≡ true) where
  abbrev grown : Memory
  grown = grow m t i fresh link

  abbrev grown_places : Places
  grown_places = grow_places places d n i fresh

  known-ne : (u : ℕ) (x : ℕ × ℕ) → places u ≡ some x → fresh ≢ u
  known-ne u x h same = none-ne-some x (sym new ∙ ap places same ∙ h)

  grown_fresh : (a : ℕ) → grown fresh a ≡ 0
  grown_fresh a =
      let other : t ≢ fresh = λ e. known-ne t (d, n) place (sym e) in ground (arith, other)

  pub grown-link : grown t i ≡ link
  grown-link = ground arith

  -- an entry of a known table, other than the one written
  grown_other : (u a : ℕ) (x : ℕ × ℕ) → places u ≡ some x → (t ≡ u → i ≢ a) → grown u a ≡ m u a
  grown_other u a x h other = let known : fresh ≢ u = known-ne u x h in ground (arith, known, other)

  stay : (u : ℕ) (x : ℕ × ℕ) → places u ≡ some x → grown_places u ≡ some x
  stay u x h = update_ne places fresh u (some (d + 1, number n i)) (known-ne u x h) ∙ h

  -- a present entry of a known table is not the one written
  kept : (u a : ℕ) (x : ℕ × ℕ) → places u ≡ some x → is_present m u a ≡ true → grown u a ≡ m u a
  kept u a x h here = grown_other u a x h (λ e e'.
      false≢true (sym gone ∙ ap (λ v. is_present m v i) e ∙ ap (λ b. is_present m u b) e' ∙ here))

  -- below the new table there is nothing
  read_fresh : (path : List ℕ) (j : ℕ) → read grown (follow grown fresh path) j ≡ 0
  unfolding follow has_flag
  read_fresh [] j = grown_fresh j
  read_fresh (a ∷ path) j = rw (grown_fresh a) refl

  -- a step down through the entry written
  read_link :
      (path : List ℕ) (j : ℕ)
      → read grown (follow grown t (i ∷ path)) j ≡ read m (follow m t (i ∷ path)) j
  unfolding follow
  read_link path j = rw (gone, grown-link, present, linked) (read_fresh path j)

  read-grown :
      (path : List ℕ) (u e k j : ℕ)
      → places u ≡ some (e, k)
      → e + length path ≡ 3
      → read grown (follow grown u path) j ≡ read m (follow m u path) j
  unfolding follow
  read-grown [] u e k j h deep =
      grown_other u j (e, k) h
        (λ same. absurd (
          depth-ne places t u (λ eq. absurd (omega (arith, ap depth place, ap depth h, eq, deep)))
            same))
  read-grown (a ∷ path) u e k j h deep = elim (Bool-cases ((t == u) && (i == a))) [
    | inl written ↦
        let here : t ≡ u = ground arith in
        let cell : i ≡ a = ground arith in
        subst (λ v. read grown (follow grown v (a ∷ path)) j ≡ read m (follow m v (a ∷ path)) j)
          here
          (subst (λ b. read grown (follow grown t (b ∷ path)) j ≡ read m (follow m t (b ∷ path)) j)
            cell (read_link path j))
    | inr other ↦
        let same : grown u a ≡ m u a = grown_other u a (e, k) h (λ here cell. ground arith) in
        rw same (elim (Bool-cases (is_present m u a)) [
          | inl down ↦ rw down (
              read-grown path (child m u a) (e + 1) (number k a) j
                (tree.below u e k a h (omega (arith, deep)) down).0 (omega (arith, deep)))
          | inr none_here ↦ rw none_here refl
        ])
  ]

  pub grown-Grows : Grows m grown places grown_places
  grown-Grows = record { stay = stay; kept = kept; same_read = read-grown }

  -- with the zone from which the page of the new table was taken
  module _ (zone' : Zone) (taken : ℕ) (base : zone'.base ≡ zone.base)
      (pages : zone'.pages ≡ zone.pages)
      (bits : (j : ℕ) → pmm_get_bit zone' j ≡ (in_run taken 1 j || pmm_get_bit zone j))
      (at : fresh ≡ zone.base + taken * pmm_page_size) where
    -- what the tree has to know of an entry
    abbrev GoodEntry : ℕ → ℕ → ℕ → ℕ → Type 0
    GoodEntry e k a entry =
        has_flag entry flag_present ≡ true
        → (grown_places (vmm_pte_to_phys entry) ≡ some (e + 1, number k a))
          × (has_flag entry flag_large_page ≡ false)

    good_link : (e k a : ℕ) → places t ≡ some (e, k) → i ≡ a → GoodEntry e k a link
    good_link e k a h cell here =
        let d' : d ≡ e = ap depth (sym place ∙ h) in
        let n' : n ≡ k = ap prefix (sym place ∙ h) in
        (
          ap grown_places linked
              ∙ update_self places fresh (some (d + 1, number n i))
              ∙ ground (arith, d', n', cell),
          small,
        )

    good_fresh : (e k a : ℕ) → GoodEntry e k a 0
    unfolding has_flag
    good_fresh e k a here = absurd (false≢true here)

    good_other :
        (u e k a : ℕ)
        → grown_places u ≡ some (e, k)
        → places u ≡ some (e, k)
        → e < 3
        → GoodEntry e k a (m u a)
    good_other u e k a h h' low here =
        let (place', small') = tree.below u e k a h' low here in
        (stay (child m u a) (e + 1, number k a) place', small')

    grown_below : (u e k a : ℕ) → grown_places u ≡ some (e, k) → e < 3 → GoodEntry e k a (grown u a)
    grown_below u e k a h low = elim (Bool-cases (fresh == u)) [
      | inl is_new ↦
          let here : fresh ≡ u = (==_iff fresh u).0 is_new in
          subst (λ v. GoodEntry e k a (grown v a)) here
            (subst (GoodEntry e k a) (sym (grown_fresh a)) (good_fresh e k a))
      | inr known ↦
          let h' : places u ≡ some (e, k) =
            sym (update_ne places fresh u (some (d + 1, number n i)) (==→ne fresh u known)) ∙ h in
          elim (Bool-cases ((t == u) && (i == a))) [
            | inl written ↦
                let here : t ≡ u = ground arith in
                let cell : i ≡ a = ground arith in
                let value : link ≡ grown u a =
                  sym grown-link ∙ ap (λ v. grown v i) here ∙ ap (λ b. grown u b) cell in
                subst (GoodEntry e k a) value (good_link e k a (ap places here ∙ h') cell)
            | inr other ↦
                let same : grown u a ≡ m u a =
                  grown_other u a (e, k) h' (λ here cell. ground arith) in
                subst (GoodEntry e k a) (sym same) (good_other u e k a h h' low)
          ]
    ]

    grown_in_use :
        (page : ℕ)
        → page < zone'.pages
        → grown_places (zone'.base + page * pmm_page_size) ≢ none
        → pmm_get_bit zone' page ≡ true
    grown_in_use page inside placed = bits page ∙ elim (Bool-cases (taken == page)) [
      | inl here ↦ ground arith
      | inr other ↦
          let known : grown_places (zone'.base + page * pmm_page_size)
              ≡ places (zone.base + page * pmm_page_size) =
            ap (λ b. grown_places (b + page * pmm_page_size)) base
            ∙ update_ne places fresh (zone.base + page * pmm_page_size) (some (d + 1, number n i))
                (λ e. absurd (==→ne taken page other (omega (arith, e, at)))) in
          let old = tree.in_use page (omega (arith, pages)) (λ e. placed (known ∙ e)) in
          ground (arith, old)
    ]

    pub grown-IsTree : IsTree zone' grown root grown_places
    grown-IsTree = record {
      top = stay root (0, 0) tree.top;
      below = λ u e k a h low here. grown_below u e k a h low here;
      in_use = grown_in_use;
    }
