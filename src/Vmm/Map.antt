-- ===== src/Vmm/Map.antt =====
-- What `vmm_map_page` and `vmm_unmap_page` of vmm.c do to an address space: they write one page of
-- the map from pages to frames, and no other.
use mathlib.Core.Path.{subst}
use box_kernel.Base.{
  ℕ, ◌%◌, ◌^◌, ◌<◌, ◌≡◌, refl, sym, ◌∙◌, ap, inl, inr, Bool, true, false, not, ◌&&◌, ◌||◌, Option,
  none, some, ◌==◌, if◌then◌else◌, arith, Bool-cases, ne→==, ==_iff, ap-if,
}
use box_kernel.Vmm.{
  Vmm, Context, MapResult, flag_present, flag_user, has_flag, vmm_is_page_aligned, vmm_pte_to_phys,
  vmm_pte_to_flags, vmm_make_pte, pt_index, write_entry, vmm_flush_tlb_page,
}
use box_kernel.Vmm.Entry.{
  page_of, pte_to_phys-make_pte, pte_to_flags-make_pte, has_flag-make_pte, pte_to_phys_value,
  aligned_iff,
}
use box_kernel.Vmm.Table.{entry_of, descend, vmm_get_or_create_table, vmm_get_or_create_pte}
use box_kernel.Vmm.Page.{count_mapped, map_entry, vmm_map_page}
use box_kernel.Vmm.Tree.{Places, follow, read}
use box_kernel.Vmm.Walk.{Ready, Walked, Descended, descend_lem}
use box_kernel.Vmm.Space.{view, way_down, entry_at, space, IsSpace, guard_passes}
use box_kernel.Vmm.Rewrite.{rewritten_lem, entry_of_page}

-- The flags of a present page, as an entry can hold them.
pub record IsPageFlags (flags : ℕ) : Type 0 where
  pub present : has_flag flags flag_present ≡ true
  pub fits : vmm_pte_to_flags flags ≡ flags

-- The walk leaves the address space as it is.
pub space-Walked :
    {s s' : Vmm} {ctx : ℕ} {places places' : Places}
    → IsSpace s ctx places
    → Walked s s' (s.contexts ctx).pml4 places places'
    → IsSpace s' ctx places' × ((w : ℕ) → space s' ctx w ≡ space s ctx w)
unfolding space
space-Walked {s} {s'} {ctx} {places} {places'} h walk =
    let top : (s'.contexts ctx).pml4 ≡ (s.contexts ctx).pml4 =
      ap (λ (c : ℕ → Context). (c ctx).pml4) walk.contexts in
    (
      record {
        exists = h.exists;
        has_top = λ e. h.has_top (sym top ∙ e);
        ready = subst (λ r. Ready s' r places') (sym top) walk.ready;
      },
      λ w.
          ap (λ r. view (entry_at s' r w)) top
          ∙ ap view (
              walk.grows.same_read (way_down w) (s.contexts ctx).pml4 0 0 (pt_index w)
                h.ready.tree.top refl),
    )

-- What a mapping of `addr` comes to, with the result and the state after it.
abbrev pub MapOutcome : Vmm → ℕ → ℕ → ℕ → ℕ → MapResult × Vmm → Type 0
MapOutcome s ctx addr frame flags (r, s') =
    (places' : Places) × IsSpace s' ctx places'
    × ((w : ℕ)
        → space s' ctx w ≡ (
            if r.success && (page_of addr == page_of w)
            then some (frame, flags)
            else space s ctx w))

view_present :
    (e frame flags : ℕ)
    → has_flag e flag_present ≡ true
    → vmm_pte_to_phys e ≡ frame
    → vmm_pte_to_flags e ≡ flags
    → view e ≡ some (frame, flags)
unfolding view
view_present e frame flags here a b = rw (here, a, b) refl

-- the counters apart, the state is the same
abbrev SameTables : Vmm → ℕ → Vmm → Type 0
SameTables s ctx s' =
    (s'.zone ≡ s.zone) × (s'.memory ≡ s.memory) × ((s'.contexts ctx).pml4 ≡ (s.contexts ctx).pml4)

count_mapped_tables :
    (s : Vmm) (ctx : ℕ) (user : Bool)
    → SameTables s ctx (vmm_flush_tlb_page (count_mapped s ctx user))
unfolding count_mapped vmm_flush_tlb_page
count_mapped_tables s ctx true = (refl, refl, ground arith)
count_mapped_tables s ctx false = (refl, refl, ground arith)

module _ {s : Vmm} {ctx : ℕ} {places : Places} (h : IsSpace s ctx places)
    (addr frame flags : ℕ) where
  abbrev root : ℕ
  root = (s.contexts ctx).pml4

  -- what `map_entry` does to a present entry
  map_present :
      (t : ℕ)
      → follow s.memory root (way_down addr) ≡ some t
      → has_flag (s.memory t (pt_index addr)) flag_present ≡ true
      → MapOutcome s ctx addr frame flags
          (map_entry ctx addr frame flags (some (t, pt_index addr), s))
  unfolding map_entry space
  map_present t leads here =
      let e = s.memory t (pt_index addr) in
      rw here (
        places,
        h,
        λ w. elim (Bool-cases ((vmm_pte_to_phys e == frame) && (vmm_pte_to_flags e == flags))) [
          | inl same ↦ elim (Bool-cases (page_of addr == page_of w)) [
            | inl page ↦
                let entry : entry_at s root w ≡ e =
                  entry_of_page s root w addr (sym ((==_iff (page_of addr) (page_of w)).0 page))
                  ∙ ap (λ end. read s.memory end (pt_index addr)) leads in
                let frame' : vmm_pte_to_phys e ≡ frame = ground arith in
                let flags' : vmm_pte_to_flags e ≡ flags = ground arith in
                rw (same, page) (ap view entry ∙ view_present e frame flags here frame' flags')
            | inr other ↦ rw (same, other) refl
          ]
          | inr different ↦ rw different refl
        ],
      )

  -- what it does to an entry that is not present
  map_absent :
      (t : ℕ)
      → IsPageFlags flags
      → vmm_pte_to_phys frame ≡ frame
      → follow s.memory root (way_down addr) ≡ some t
      → has_flag (s.memory t (pt_index addr)) flag_present ≡ false
      → MapOutcome s ctx addr frame flags
          (map_entry ctx addr frame flags (some (t, pt_index addr), s))
  unfolding map_entry space write_entry
  map_absent t ok fits leads gone =
      let e = vmm_make_pte frame flags in
      let s1 = write_entry s t (pt_index addr) e in
      let (zone, memory, top) = count_mapped_tables s1 ctx (has_flag flags flag_user) in
      let s' = vmm_flush_tlb_page (count_mapped s1 ctx (has_flag flags flag_user)) in
      let done = rewritten_lem h addr t e leads s' zone memory top in
      let new : view e ≡ some (frame, flags) =
        view_present e frame flags
          (has_flag-make_pte frame flags flag_present (omega arith) ∙ ok.present)
          (pte_to_phys-make_pte frame flags ∙ fits) (pte_to_flags-make_pte frame flags ∙ ok.fits) in
      rw gone (
        places,
        done.is_space,
        λ w.
            ap view (done.entry w)
            ∙ ap-if view (page_of addr == page_of w) e (entry_at s root w)
            ∙ ap (λ x. if page_of addr == page_of w then x else view (entry_at s root w)) new,
      )

  -- whatever the pointer to the entry turns out to be
  map_entry_lem :
      (t : ℕ)
      → IsPageFlags flags
      → vmm_pte_to_phys frame ≡ frame
      → follow s.memory root (way_down addr) ≡ some t
      → MapOutcome s ctx addr frame flags
          (map_entry ctx addr frame flags (some (t, pt_index addr), s))
  map_entry_lem t ok fits leads =
      elim (Bool-cases (has_flag (s.memory t (pt_index addr)) flag_present)) [
        | inl here ↦ map_present t leads here
        | inr gone ↦ map_absent t ok fits leads gone
      ]

  -- An outcome after the walk is one of the state before it.
  after_walk :
      (s' : Vmm) (r : MapResult × Vmm)
      → ((w : ℕ) → space s' ctx w ≡ space s ctx w)
      → MapOutcome s' ctx addr frame flags r
      → MapOutcome s ctx addr frame flags r
  after_walk s' r same (places', is_space, mapped_to) = (
    places',
    is_space,
    λ w.
        mapped_to w
        ∙ ap (λ x. if r.0.success && (page_of addr == page_of w) then some (frame, flags) else x)
            (same w),
  )

-- The walk that makes tables ends where the way down leads.
pub get_or_create_pte_lem :
    {s : Vmm} {ctx : ℕ} {places : Places} (h : IsSpace s ctx places) (addr : ℕ)
    → let (r, s') = descend (way_down addr) s (s.contexts ctx).pml4 in
      vmm_get_or_create_pte s ctx addr ≡ (entry_of (pt_index addr) r, s')
unfolding vmm_get_or_create_pte vmm_get_or_create_table
get_or_create_pte_lem {s} {ctx} h addr =
    ap
      (λ (b : Bool).
        let (r, s') : Option ℕ × Vmm =
          if b then (none, s) else descend (way_down addr) s (s.contexts ctx).pml4 in
        (entry_of (pt_index addr) r, s'))
      (guard_passes h)

-- what is mapped after a walk
map_walked :
    {s : Vmm} {ctx : ℕ} {places : Places} (addr frame flags : ℕ)
    → IsSpace s ctx places
    → IsPageFlags flags
    → vmm_pte_to_phys frame ≡ frame
    → (r : Option ℕ × Vmm)
    → Descended s (s.contexts ctx).pml4 places (way_down addr) (s.contexts ctx).pml4 r
    → MapOutcome s ctx addr frame flags
        (map_entry ctx addr frame flags (entry_of (pt_index addr) r.0, r.1))
unfolding map_entry entry_of
map_walked {s} {ctx} addr frame flags h ok fits r (places', walk, end) =
    let (h', same) = space-Walked h walk in
    let go = λ (o : Option ℕ). map_entry ctx addr frame flags (entry_of (pt_index addr) o, r.1) in
    after_walk h addr frame flags r.1 (go r.0) same (elim end [
      | inl out ↦
          subst (λ o. MapOutcome r.1 ctx addr frame flags (go o)) (sym out) (places', h', λ w. refl)
      | inr (t, found, leads) ↦
          let top = ap (λ (c : ℕ → Context). (c ctx).pml4) walk.contexts in
          subst (λ o. MapOutcome r.1 ctx addr frame flags (go o)) (sym found)
            (map_entry_lem h' addr frame flags t ok fits
              (ap (λ u. follow r.1.memory u (way_down addr)) top ∙ leads))
    ])

-- In a context whose tables are a tree, `vmm_map_page` of a frame below 2^52 with the flags of a
-- present page, whatever its result, leaves a tree, and changes the map from pages to frames only
-- when it succeeds: then every address of that page has the frame and the flags, and every other
-- has what it had.
pub vmm_map_page-refines :
    {s : Vmm} {ctx : ℕ} {places : Places} (addr frame flags : ℕ)
    → IsSpace s ctx places
    → IsPageFlags flags
    → frame < 2 ^ 52
    → MapOutcome s ctx addr frame flags (vmm_map_page s ctx addr frame flags)
unfolding vmm_map_page
vmm_map_page-refines {s} {ctx} {places} addr frame flags h ok small =
    rw (ne→== ctx 0 h.exists)
      (elim (Bool-cases (not (vmm_is_page_aligned addr) || not (vmm_is_page_aligned frame))) [
        | inl off ↦ rw off (places, h, λ w. refl)
        | inr on ↦
            let frame_aligned : frame % 4096 ≡ 0 = ground (arith, aligned_iff frame) in
            let fits : vmm_pte_to_phys frame ≡ frame =
              omega (arith, frame_aligned, pte_to_phys_value frame) in
            rw on (
              subst (λ r. MapOutcome s ctx addr frame flags (map_entry ctx addr frame flags r))
                (sym (get_or_create_pte_lem h addr))
                (map_walked addr frame flags h ok fits
                  (descend (way_down addr) s (s.contexts ctx).pml4)
                  (descend_lem (way_down addr) (s.contexts ctx).pml4 0 0 h.ready h.ready.tree.top
                    refl)))
      ])
