-- ===== src/Vmm/Fault.antt =====
-- The page-fault handler of vmm.c: a page that is not present, in the kernel heap or in low memory,
-- is mapped to a fresh frame.

use mathlib.Core.Bool.{false≢true}
use mathlib.Core.Option.{none-ne-some}
use box_kernel.Base.{
  ℕ, zero, suc, ◌+◌, ◌*◌, ◌%◌, ◌^◌, ◌≤◌, ◌<◌, ◌≡◌, ◌≢◌, refl, sym, ◌∙◌, ap, inl, inr, Bool, true,
  false, not, ◌&&◌, ◌||◌, none, some, ◌==◌, leb, ltb, if◌then◌else◌, arith, Bool-cases, ==_iff,
}
use box_kernel.Pmm.{Zone, pmm_page_size, pmm_get_bit, pmm_free_pages, pmm_alloc}
use box_kernel.Pmm.Alloc.{alloc-cases, alloc_run}
use box_kernel.Pmm.Search.{all_free-get_bit}
use box_kernel.Vmm.{
  Vmm, has_flag, kernel_heap_base, kernel_heap_size, set_zone, vmm_page_align_down,
  vmm_is_page_aligned, vmm_pte_to_flags,
}
use box_kernel.Vmm.Entry.{page_of, align_down_value, aligned_iff}
use box_kernel.Vmm.Page.{vmm_map_page}
use box_kernel.Vmm.Tree.{Places}
use box_kernel.Vmm.Space.{space, IsSpace}
use box_kernel.Vmm.Map.{IsPageFlags, vmm_map_page-refines}
use box_kernel.Vmm.Contexts.{fault_frame, vmm_handle_page_fault}
use box_kernel.Vmm.Range.{space_of_page}
use box_kernel.Vmm.Room.{alloc_one, vmm_map_page-succeeds}
use box_kernel.Vmm.Zones.{Keeps, pmm_alloc-Keeps, vmm_map_page-Keeps, give_back_lem}

-- A zone that has given out more frames serves the same tables.
pub zone_space :
    {s : Vmm} {ctx : ℕ} {places : Places} {z : Zone}
    → IsSpace s ctx places
    → Keeps s.zone z
    → IsSpace (set_zone s z) ctx places
zone_space {s} {ctx} {places} {z} h k = record {
  exists = h.exists;
  has_top = h.has_top;
  ready = record {
    zone_valid = k.valid;
    base_aligned = ap (λ b. b % 4096) k.base ∙ h.ready.base_aligned;
    addressable = omega (arith, k.base, k.pages, h.ready.addressable);
    tree = record {
      top = h.ready.tree.top;
      below = h.ready.tree.below;
      in_use = λ page inside placed. k.bits page (
          h.ready.tree.in_use page (omega (arith, inside, k.pages))
            (λ e. placed (ap (λ b. places (b + page * pmm_page_size)) k.base ∙ e)));
    };
  };
}

-- The frame of a page that was free.
pub record IsFresh (z : Zone) (frame : ℕ) : Type 0 where
  pub page : ℕ
  pub at : frame ≡ z.base + page * pmm_page_size
  pub inside : page < z.pages
  pub was_free : pmm_get_bit z page ≡ false

-- What the handling of a fault at `addr` comes to, with the flags of the new page.
abbrev pub Handled : Vmm → ℕ → ℕ → Bool × Vmm → Type 0
Handled s addr flags (done, s') =
    (frame : ℕ) × (done ≡ true → IsFresh s.zone frame)
    × ((w : ℕ)
        → space s' s.kernel_context w ≡ (
            if done && (page_of addr == page_of w)
            then some (frame, flags)
            else space s s.kernel_context w))

-- An unmapped page is served when four pages are free, three of them for tables.
abbrev pub Served : Vmm → ℕ → Bool × Vmm → Type 0
Served s addr (done, s') =
    space s s.kernel_context addr ≡ none → 4 ≤ pmm_free_pages s.zone → done ≡ true

-- nothing was mapped
unhandled : (s : Vmm) (addr flags : ℕ) → Handled s addr flags (false, s)
unhandled s addr flags = (0, λ e. absurd (false≢true e), λ w. refl)

one : suc zero ≢ zero
one e = absurd (omega (arith, e))

module _ {s : Vmm} {places : Places} (h : IsSpace s s.kernel_context places)
    (addr page_addr flags : ℕ) (same_page : page_of page_addr ≡ page_of addr)
    (aligned : vmm_is_page_aligned page_addr ≡ true) (ok : IsPageFlags flags) where
  -- with a frame
  frame_found :
      (frame : ℕ)
      → (pmm_alloc s.zone 1).0 ≡ some frame
      → (r : Bool × Vmm) × (fault_frame s page_addr flags (some frame, (pmm_alloc s.zone 1).1)
          ≡ some r)
        × Served s addr r
        × Handled s addr flags r
  unfolding fault_frame space
  frame_found frame success =
      let z = (pmm_alloc s.zone 1).1 in
      let k = pmm_alloc-Keeps 1 h.ready.zone_valid one in
      let (page, at, inside, free, _, _, _, _) = alloc_run h.ready.zone_valid 1 one frame success in
      let fresh : IsFresh s.zone frame = record {
        page = page;
        at = at;
        inside = omega (arith, inside);
        was_free = all_free-get_bit s.zone 1 page page free (omega arith) (omega arith);
      } in
      let s1 = set_zone s z in
      let r = vmm_map_page s1 s.kernel_context page_addr frame flags in
      let (_, _, after) =
        vmm_map_page-refines page_addr frame flags (zone_space h k) ok
          (omega (arith, at, inside, h.ready.addressable)) in
      let after' : (w : ℕ)
          → space r.1 s.kernel_context w ≡ (
              if r.0.success && (page_of addr == page_of w)
              then some (frame, flags)
              else space s s.kernel_context w) =
        λ w.
          after w
          ∙ ap
              (λ p.
                if r.0.success && (p == page_of w)
                then some (frame, flags)
                else space s s.kernel_context w)
              same_page in
      let frame_aligned : vmm_is_page_aligned frame ≡ true =
        aligned_iff frame ∙ (==_iff (frame % 4096) 0).1 (omega (arith, at, h.ready.base_aligned)) in
      let served : Served s addr (r.0.success, s1) = λ unmapped room.
        let (addr', success', left) = alloc_one h.ready.zone_valid (omega (arith, room)) in
        (vmm_map_page-succeeds page_addr frame flags (zone_space h k) aligned frame_aligned
          (space_of_page s s.kernel_context page_addr addr same_page ∙ unmapped) 0
          (omega (arith, room, left))).0 in
      elim (Bool-cases r.0.success) [
        | inl done ↦ (
          (true, r.1),
          rw done refl,
          λ _ _. refl,
          (frame, λ _. fresh, λ w. after' w ∙ rw done refl),
        )
        | inr lost ↦
            let (z'', freed) =
              give_back_lem 1 frame h.ready.zone_valid one success
                (vmm_map_page-Keeps s1 s.kernel_context page_addr frame flags k.valid) in
            (
              (false, set_zone r.1 z''),
              rw (lost, freed) refl,
              λ unmapped room. sym lost ∙ served unmapped room,
              (frame, λ e. absurd (false≢true e), λ w. after' w ∙ rw lost refl),
            )
      ]

  fault_frame_lem :
      (r : Bool × Vmm) × (fault_frame s page_addr flags (pmm_alloc s.zone 1) ≡ some r)
      × Served s addr r
      × Handled s addr flags r
  unfolding fault_frame
  fault_frame_lem = elim (alloc-cases h.ready.zone_valid 1 one) [
    | inl (page, out, run) ↦
        let success = ap (λ r. r.0) out in
        let (r, returns, served, handled) = frame_found _ success in
        (
          r,
          ap (λ o. fault_frame s page_addr flags (o, (pmm_alloc s.zone 1).1)) success ∙ returns,
          served,
          handled,
        )
    | inr (out, _, _) ↦ (
      (false, s),
      ap (fault_frame s page_addr flags) out,
      λ unmapped room.
          let (addr', success, _) = alloc_one h.ready.zone_valid (omega (arith, room)) in
          absurd (none-ne-some addr' (sym (ap (λ r. r.0) out) ∙ success)),
      unhandled s addr flags,
    )
  ]

-- the flags of the page that a fault with that code gets
abbrev pub fault_flags : ℕ → ℕ → ℕ
fault_flags addr code =
    if leb kernel_heap_base (vmm_page_align_down addr) && has_flag code 4 then 7 else 3

abbrev in_heap : ℕ → Bool
in_heap p = leb kernel_heap_base p && ltb p (kernel_heap_base + kernel_heap_size)

-- whether a fault is one for demand paging: the page is not present, no reserved bit is set, and
-- the address is in the kernel heap or below 256 MB
abbrev pub is_demand : ℕ → ℕ → Bool
is_demand addr code =
    not (has_flag code 8 || has_flag code 1)
    && (in_heap (vmm_page_align_down addr) || ltb (vmm_page_align_down addr) (256 * 1024 * 1024))

and_left : (a b : Bool) → (a && b) ≡ true → a ≡ true
and_left true b h = refl
and_left false b h = h

page_flags : (b : Bool) → IsPageFlags (if b then 7 else 3)
unfolding has_flag vmm_pte_to_flags
page_flags true = record { present = refl; fits = refl }
page_flags false = record { present = refl; fits = refl }

-- what the handling of a fault comes to, served or not
fault_outcome :
    {s : Vmm} {places : Places} (addr code : ℕ)
    → IsSpace s s.kernel_context places
    → addr < 2 ^ 64
    → (r : Bool × Vmm) × (vmm_handle_page_fault s addr code ≡ some r)
      × (is_demand addr code ≡ false → r.0 ≡ false)
      × (is_demand addr code ≡ true → Served s addr r)
      × Handled s addr (fault_flags addr code) r
unfolding vmm_handle_page_fault vmm_page_align_down
fault_outcome {s} {places} addr code h inside =
    let p = vmm_page_align_down addr in
    let page : page_of p ≡ page_of addr = ap page_of (align_down_value addr inside) ∙ omega arith in
    let flags = fault_flags addr code in
    let start : vmm_is_page_aligned p ≡ true =
      aligned_iff p ∙ (==_iff (p % 4096) 0).1 (omega (arith, align_down_value addr inside)) in
    let framed = fault_frame_lem h addr p flags page start (page_flags _) in
    elim (Bool-cases (has_flag code 8 || has_flag code 1)) [
      | inl fatal ↦ (
        (false, s),
        rw fatal refl,
        λ _. refl,
        λ e. absurd (false≢true (rw fatal at e)),
        unhandled s addr flags,
      )
      | inr absent ↦ elim (Bool-cases (in_heap p)) [
        | inl heap ↦
            let user : flags ≡ (if has_flag code 4 then 7 else 3) =
              ap (λ (b : Bool). if b && has_flag code 4 then 7 else 3) (and_left _ _ heap) in
            (
              framed.0,
              rw (absent, heap)
                  (ap (λ f. fault_frame s p f (pmm_alloc s.zone 1)) (sym user) ∙ framed.1),
              λ e. absurd (false≢true (sym e ∙ rw (absent, heap) refl)),
              λ _. framed.2,
              framed.3,
            )
        | inr not_heap ↦ elim (Bool-cases (ltb p (256 * 1024 * 1024))) [
          | inl low ↦
              let below : leb kernel_heap_base p ≡ false = ground arith in
              let kernel : flags ≡ 3 =
                ap (λ (b : Bool). if b && has_flag code 4 then 7 else 3) below in
              (
                framed.0,
                rw (absent, not_heap, low)
                    (ap (λ f. fault_frame s p f (pmm_alloc s.zone 1)) (sym kernel) ∙ framed.1),
                λ e. absurd (false≢true (sym e ∙ rw (absent, not_heap, low) refl)),
                λ _. framed.2,
                framed.3,
              )
          | inr high ↦ (
            (false, s),
            rw (absent, not_heap, high) refl,
            λ _. refl,
            λ e. absurd (false≢true (rw (absent, not_heap, high) at e)),
            unhandled s addr flags,
          )
        ]
      ]
    ]

-- A page fault in a kernel context whose tables are a tree always returns. If it is handled, a
-- frame that was free is mapped at the page of the fault, writable, and for the user as well when
-- the fault came from the user in the kernel heap. No other address changes, and none at all when
-- it is not handled, as is every fault that is not one for demand paging.
pub vmm_handle_page_fault-maps :
    {s : Vmm} {places : Places} (addr code : ℕ)
    → IsSpace s s.kernel_context places
    → addr < 2 ^ 64
    → (r : Bool × Vmm) × (vmm_handle_page_fault s addr code ≡ some r)
      × (is_demand addr code ≡ false → r.0 ≡ false)
      × Handled s addr (fault_flags addr code) r
vmm_handle_page_fault-maps addr code h inside =
    let (r, returns, refused, _, handled) = fault_outcome addr code h inside in
    (r, returns, refused, handled)

-- A page fault for demand paging, in a kernel context whose tables are a tree and at a page where
-- nothing is mapped, is handled when the zone has four free pages.
pub vmm_handle_page_fault-serves :
    {s : Vmm} {places : Places} (addr code : ℕ)
    → IsSpace s s.kernel_context places
    → addr < 2 ^ 64
    → is_demand addr code ≡ true
    → space s s.kernel_context addr ≡ none
    → 4 ≤ pmm_free_pages s.zone
    → (s' : Vmm) × (vmm_handle_page_fault s addr code ≡ some (true, s'))
vmm_handle_page_fault-serves addr code h inside demand unmapped room =
    let (r, returns, _, served, _) = fault_outcome addr code h inside in
    (r.1, returns ∙ ap (λ b. some (b, r.1)) (served demand unmapped room))
