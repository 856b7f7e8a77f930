-- ===== src/Vmm/Walk.antt =====
-- The walk of vmm.c that makes the tables that are missing, over the tree of a context.
use mathlib.Core.Path.{subst}
use mathlib.Core.Option.{none-ne-some}
use mathlib.Core.Bool.{false≢true}
use box_kernel.Base.{
  ℕ, ◌+◌, ◌*◌, ◌%◌, ◌^◌, ◌<◌, ◌≡◌, ◌≢◌, ◌⊎◌, refl, sym, ◌∙◌, ap, inl, inr, true, false, Option,
  none, some, List, [], ◌∷◌, arith, length, Bool-cases,
}
use box_kernel.Pmm.{pmm_page_size, pmm_alloc}
use box_kernel.Pmm.Alloc.{IsValid, alloc-cases, alloc_run}
use box_kernel.Pmm.Search.{all_free-get_bit}
use box_kernel.Vmm.{
  Vmm, flag_present, flag_large_page, flags_kernel_rw, has_flag, vmm_pte_to_phys, vmm_make_pte,
  write_entry, new_table, vmm_alloc_page_table,
}
use box_kernel.Vmm.Entry.{number, pte_to_phys_value, make_pte_value, has_flag-make_pte}
use box_kernel.Vmm.Table.{link, next_table, on_table, descend}
use box_kernel.Vmm.Tree.{Places, is_present, child, IsTree, follow}
use box_kernel.Vmm.Grow.{
  Grows, Grows-refl, Grows-trans, grow, grow_places, grown-link, grown-Grows, grown-IsTree,
}

-- A tree of tables over a zone that is in order, of pages that an entry can address.
pub record Ready (s : Vmm) (root : ℕ) (places : Places) : Type 0 where
  pub zone_valid : IsValid s.zone
  pub base_aligned : s.zone.base % 4096 ≡ 0
  pub addressable : s.zone.base + s.zone.pages * pmm_page_size < 2 ^ 52
  pub tree : IsTree s.zone s.memory root places

-- what a walk does to the state
pub record Walked (s s' : Vmm) (root : ℕ) (places places' : Places) : Type 0 where
  pub ready : Ready s' root places'
  pub grows : Grows s.memory s'.memory places places'
  pub contexts : s'.contexts ≡ s.contexts

Walked-refl :
    {s : Vmm} {root : ℕ} {places : Places} → Ready s root places → Walked s s root places places
Walked-refl r = record { ready = r; grows = Grows-refl; contexts = refl }

Walked-trans :
    {s s' s'' : Vmm} {root : ℕ} {places places' places'' : Places}
    → Walked s s' root places places'
    → Walked s' s'' root places' places''
    → Walked s s'' root places places''
Walked-trans w w' = record {
  ready = w'.ready;
  grows = Grows-trans w.grows w'.grows;
  contexts = w'.contexts ∙ w.contexts;
}

absent : {A : Type 0} (o : Option A) → (o ≢ none → ⊥) → o ≡ none
absent none h = refl
absent (some a) h = absurd (h (λ e. none-ne-some a (sym e)))

-- What a round of the walk comes to: no page was left, or the entry leads to the table returned.
abbrev Stepped : Vmm → ℕ → Places → ℕ → ℕ → Option ℕ × Vmm → Type 0
Stepped s root places t i (r, s') =
    (places' : Places) × Walked s s' root places places'
    × ((r ≡ none) ⊎ ((is_present s'.memory t i ≡ true) × (r ≡ some (child s'.memory t i))))

module _ {s : Vmm} {root : ℕ} {places : Places} (ready : Ready s root places) where
  -- an allocation that succeeded, and the link to the new table
  made :
      (t d n i addr : ℕ)
      → places t ≡ some (d, n)
      → d < 3
      → is_present s.memory t i ≡ false
      → (pmm_alloc s.zone 1).0 ≡ some addr
      → Stepped s root places t i (link t i (new_table s (some addr, (pmm_alloc s.zone 1).1)))
  unfolding link new_table write_entry has_flag
  made t d n i addr place high gone success =
      let (page, at, inside, free, base, pages, bits, valid) =
        alloc_run ready.zone_valid 1 (λ e. absurd (omega (arith, e))) addr success in
      let entry = vmm_make_pte addr flags_kernel_rw in
      let linked : vmm_pte_to_phys entry ≡ addr = omega (
        arith,
        pte_to_phys_value entry,
        make_pte_value addr flags_kernel_rw,
        at,
        ready.base_aligned,
        ready.addressable,
        inside,
      ) in
      let small = has_flag-make_pte addr flags_kernel_rw flag_large_page (omega arith) in
      let present = has_flag-make_pte addr flags_kernel_rw flag_present (omega arith) in
      let new : places addr ≡ none = absent (places addr) (λ known.
        let used = ready.tree.in_use page (omega (arith, inside)) (λ e. known (ap places at ∙ e)) in
        false≢true
          (sym (all_free-get_bit s.zone 1 page page free (omega arith) (omega arith)) ∙ used)) in
      let cell : grow s.memory t i addr entry t i ≡ entry =
        grown-link ready.tree t d n i addr entry place high gone new linked small present in
      (
        grow_places places d n i addr,
        record {
          ready = record {
            zone_valid = valid;
            base_aligned = omega (arith, base, ready.base_aligned);
            addressable = omega (arith, base, pages, ready.addressable);
            tree =
                grown-IsTree ready.tree t d n i addr entry place high gone new linked small present
                  (pmm_alloc s.zone 1).1 page base pages bits at;
          };
          grows =
              grown-Grows ready.tree t d n i addr entry place high gone new linked small present;
          contexts = refl;
        },
        inr (
          ap (λ e. has_flag e flag_present) cell ∙ present,
          ap (λ e. some (vmm_pte_to_phys e)) (sym cell),
        ),
      )

  next_table_lem :
      (t d n i : ℕ) → places t ≡ some (d, n) → d < 3 → Stepped s root places t i (next_table s t i)
  unfolding next_table vmm_alloc_page_table link new_table
  next_table_lem t d n i place high = elim (Bool-cases (is_present s.memory t i)) [
    | inl here ↦ rw here (places, Walked-refl ready, inr (here, refl))
    | inr gone ↦ rw gone (elim (alloc-cases ready.zone_valid 1 (λ e. absurd (omega (arith, e)))) [
      | inl (k, out, run) ↦
          subst (λ r. Stepped s root places t i (link t i (new_table s r)))
            (ap (λ o. (o, (pmm_alloc s.zone 1).1)) (sym (ap (λ r. r.0) out)))
            (made t d n i _ place high gone (ap (λ r. r.0) out))
      | inr (out, _, _) ↦
          subst (λ r. Stepped s root places t i (link t i (new_table s r))) (sym out)
            (places, Walked-refl ready, inl refl)
    ])
  ]

-- What the walk comes to: it is out of pages, or the tables lead down to the one it returns.
abbrev pub Descended : Vmm → ℕ → Places → List ℕ → ℕ → Option ℕ × Vmm → Type 0
Descended s root places path t (r, s') =
    (places' : Places) × Walked s s' root places places'
    × ((r ≡ none) ⊎ ((x : ℕ) × (r ≡ some x) × (follow s'.memory t path ≡ some x)))

pub descend_lem :
    (path : List ℕ) {s : Vmm} {root : ℕ} {places : Places} (t d n : ℕ)
    → Ready s root places
    → places t ≡ some (d, n)
    → d + length path ≡ 3
    → Descended s root places path t (descend path s t)
unfolding descend follow on_table
descend_lem [] {s} {root} {places} t d n ready place deep =
    (places, Walked-refl ready, inr (t, refl, refl))
descend_lem (i ∷ path) {s} {root} {places} t d n ready place deep =
    let (places', w, step) = next_table_lem ready t d n i place (omega (arith, deep)) in
    let s' = (next_table s t i).1 in
    let go = λ (s'' : Vmm) (u : ℕ). descend path s'' u in
    elim step [
      | inl out ↦
          subst (λ o. Descended s root places (i ∷ path) t (on_table go (o, s'))) (sym out)
            (places', w, inl refl)
      | inr (here, reached) ↦
          let u = child s'.memory t i in
          let kept_place = w.grows.stay t (d, n) place in
          let (places'', w', end) =
            descend_lem path u (d + 1) (number n i) w.ready
              (w.ready.tree.below t d n i kept_place (omega (arith, deep)) here).0
              (omega (arith, deep)) in
          let s'' = (descend path s' u).1 in
          let entry = w'.grows.kept t i (d, n) kept_place here in
          let down : follow s''.memory t (i ∷ path) ≡ follow s''.memory u path =
            rw (entry, here) refl in
          subst (λ o. Descended s root places (i ∷ path) t (on_table go (o, s'))) (sym reached)
            (
              places'',
              Walked-trans w w',
              elim end [ inl out ↦ inl out | inr (x, found, leads) ↦ inr (x, found, down ∙ leads) ],
            )
    ]
