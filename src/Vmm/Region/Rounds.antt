-- ===== src/Vmm/Region/Rounds.antt =====
-- The rounds of `vmm_find_free_region` of vmm.c end, and what they jump over has a mapped page.
use mathlib.Core.Path.{subst}
use native.Mathlib.Decide.{dec_lt}
use box_kernel.Base.{
  ℕ, zero, suc, ◌+◌, ◌-◌, ◌*◌, ◌/◌, ◌^◌, ◌≤◌, ◌<◌, ◌≡◌, ◌≢◌, ◌⊎◌, refl, sym, ◌∙◌, ap, inl, inr,
  Bool, true, false, ◌||◌, Option, none, some, ◌==◌, leb, if◌then◌else◌, arith, Bool-cases, u64,
  first_from, found, absent, first_from-Searched, first_from-first, first_from-absent,
}
use box_kernel.Vmm.{
  Vmm, vmm_page_size, vmm_page_align_up, vmm_page_align_down, vmm_size_to_pages, vmm_pages_to_size,
}
use box_kernel.Vmm.Entry.{align_down_value}
use box_kernel.Vmm.Page.{vmm_is_mapped}
use box_kernel.Vmm.Region.{page_mapped, jump, round, region_from, or_null, vmm_find_free_region}

-- What a place that fits is, where `mapped_at` says which pages are mapped.
module _ (mapped_at : ℕ → Bool) where
  -- one of the `n` pages from `c` on is mapped
  abbrev pub Blocked : ℕ → ℕ → Type 0
  Blocked n c = (i : ℕ) × (i < n) × (mapped_at (c + i) ≡ true)

  -- none of them is
  abbrev pub Free : ℕ → ℕ → Type 0
  Free n c = (i : ℕ) → i < n → mapped_at (c + i) ≡ false

  -- the first page, from `q` on, at which `n` free pages end by `end`
  pub record IsFirstFit (n end q k : ℕ) : Type 0 where
    pub from : q ≤ k
    pub ends : (k + n) * 4096 ≤ end
    pub free : Free n k
    pub before : (c : ℕ) → q ≤ c → c < k → Blocked n c

  abbrev pub NoFit : ℕ → ℕ → ℕ → Type 0
  NoFit n end q = (c : ℕ) → q ≤ c → (c + n) * 4096 ≤ end → Blocked n c

  abbrev pub Fit : ℕ → ℕ → ℕ → ℕ → Type 0
  Fit n end q r = ((k : ℕ) × (r ≡ k * 4096) × IsFirstFit n end q k) ⊎ ((r ≡ 0) × NoFit n end q)

-- whether the lookup of the virtual page `q` finds a frame
abbrev pub mapped_at : Vmm → ℕ → ℕ → Bool
mapped_at s ctx q = vmm_is_mapped s ctx (u64 (q * vmm_page_size))

module _ (s : Vmm) (ctx : ℕ) where
  abbrev is_mapped : ℕ → Bool
  is_mapped = mapped_at s ctx

  module _ (n end : ℕ) (some_pages : 0 < n) (room : end + n * 4096 + 4096 ≤ 2 ^ 64) where
    page_test : (q i : ℕ) → page_mapped s ctx (q * 4096) i ≡ is_mapped (q + i)
    page_test q i = ap (λ a. vmm_is_mapped s ctx (u64 a)) (omega arith)

    abbrev start_of : ℕ → ℕ
    start_of q = q * vmm_page_size

    -- the test of the loop
    reach :
        (q : ℕ)
        → q * 4096 < end + 4096
        → leb (u64 (start_of q + vmm_pages_to_size n)) end ≡ leb ((q + n) * 4096) end
    unfolding vmm_pages_to_size
    reach q low = ap (λ a. leb a end) (omega (arith, room))

    -- the round of the search at page `q`, from its test and the first mapped page
    round_at :
        (fuel q : ℕ) (o : Option ℕ)
        → leb (u64 (start_of q + vmm_pages_to_size n)) end ≡ true
        → first_from (page_mapped s ctx (start_of q)) 0 n ≡ o
        → region_from (suc fuel) s ctx n end (start_of q)
          ≡ round (λ next. region_from fuel s ctx n end next) end (start_of q) o
    unfolding region_from
    round_at fuel q o near first =
        ap
          (λ (b : Bool). elim b [
            | false ↦ some 0
            | true ↦
                round (λ next. region_from fuel s ctx n end next) end (start_of q)
                  (first_from (page_mapped s ctx (start_of q)) 0 n)
          ])
          near
        ∙ ap (round (λ next. region_from fuel s ctx n end next) end (start_of q)) first

    -- what a mapped page blocks
    Blocked-by :
        (q i c : ℕ)
        → i < n
        → is_mapped (q + i) ≡ true
        → q ≤ c
        → c < q + (i + 1)
        → Blocked is_mapped n c
    Blocked-by q i c h here low high =
        let same : c + (q + i - c) ≡ q + i = omega arith in
        (q + i - c, omega arith, ap is_mapped same ∙ here)

    -- the search from behind a mapped page
    Fit-behind :
        (q i r : ℕ)
        → i < n
        → is_mapped (q + i) ≡ true
        → Fit is_mapped n end (q + (i + 1)) r
        → Fit is_mapped n end q r
    Fit-behind q i r h here (inl (k, at, fit)) = inl (
      k,
      at,
      record {
        from = omega (arith, fit.from);
        ends = fit.ends;
        free = fit.free;
        before = λ c a b. elim (dec_lt c (q + (i + 1))) [
          | yes near ↦ Blocked-by q i c h here a near
          | no far ↦ fit.before c (omega arith) b
        ];
      },
    )
    Fit-behind q i r h here (inr (null, lost)) = inr (
      null,
      λ c a fits. elim (dec_lt c (q + (i + 1))) [
        | yes near ↦ Blocked-by q i c h here a near
        | no far ↦ lost c (omega arith) fits
      ],
    )

    align_up_lem : (p : ℕ) → start_of p < end → vmm_page_align_up (start_of p) ≡ start_of p
    unfolding vmm_page_align_up vmm_page_align_down
    align_up_lem p h =
        align_down_value (u64 (start_of p + 4095)) (omega (arith, room)) ∙ omega (arith, room)

    -- the rounds with so much fuel end, with the first place that fits
    abbrev Result : ℕ → ℕ → Type 0
    Result fuel q =
        (r : ℕ) × (region_from fuel s ctx n end (start_of q) ≡ some r) × Fit is_mapped n end q r

    -- One round, given what the rounds behind it come to.
    round_lem :
        (fuel q : ℕ)
        → ((p : ℕ) → start_of p < end → end < (p + fuel) * 4096 → Result fuel p)
        → q * 4096 < end + 4096
        → end < (q + suc fuel) * 4096
        → Result (suc fuel) q
    unfolding region_from round jump
    round_lem fuel q behind low enough = elim (Bool-cases (leb ((q + n) * 4096) end)) [
      | inr far ↦ (
        0,
        ap
            (λ (b : Bool). elim b [
              | false ↦ some 0
              | true ↦
                  round (λ next. region_from fuel s ctx n end next) end (start_of q)
                    (first_from (page_mapped s ctx (start_of q)) 0 n)
            ])
            (reach q low ∙ far),
        inr (refl, λ c later fits. absurd (ground arith)),
      )
      | inl near ↦ elim (first_from-Searched (page_mapped s ctx (start_of q)) 0 n) [
        | absent free ↦ (
          start_of q,
          round_at fuel q none (reach q low ∙ near)
              (first_from-absent (page_mapped s ctx (start_of q)) 0 n free),
          inl (
            q,
            refl,
            record {
              from = omega arith;
              ends = ground arith;
              free = λ i h. sym (page_test q i) ∙ free i (omega arith) (omega (arith, h));
              before = λ c a b. absurd (omega arith);
            },
          ),
        )
        | found i first ↦
            let below : i < n = omega (arith, first.below) in
            let here : is_mapped (q + i) ≡ true = sym (page_test q i) ∙ first.passes in
            let inside : (q + n) * 4096 ≤ end = ground arith in
            let p = q + (i + 1) in
            let next : u64 (start_of q + (i + 1) * vmm_page_size) ≡ start_of p =
              omega (arith, room) in
            let go = λ (a : ℕ). region_from fuel s ctx n end a in
            let once : region_from (suc fuel) s ctx n end (start_of q)
                ≡ jump go (start_of p) (leb (start_of p) (start_of q) || leb end (start_of p)) =
              round_at fuel q (some i) (reach q low ∙ near)
                (first_from-first (page_mapped s ctx (start_of q)) 0 n i first)
              ∙ ap (λ a. jump go a (leb a (start_of q) || leb end a)) next in
            elim (dec_lt (start_of p) end) [
              | no out ↦
                  let stop : (leb (start_of p) (start_of q) || leb end (start_of p)) ≡ true =
                    ground arith in
                  (
                    0,
                    once ∙ ap (jump go (start_of p)) stop,
                    Fit-behind q i 0 below here
                        (inr (refl, λ c a fits. absurd (omega (arith, some_pages)))),
                  )
              | yes on ↦
                  let pass : (leb (start_of p) (start_of q) || leb end (start_of p)) ≡ false =
                    ground arith in
                  let (r, rest, fit) = behind p on (omega (arith, enough)) in
                  (
                    r,
                    once ∙ ap (jump go (start_of p)) pass ∙ ap go (align_up_lem p on) ∙ rest,
                    Fit-behind q i r below here fit,
                  )
            ]
      ]
    ]

    rounds_lem : (fuel p : ℕ) → start_of p < end → end < (p + fuel) * 4096 → Result fuel p
    rounds_lem zero p on enough = absurd (omega (arith, on, enough))
    rounds_lem (suc fuel) p on enough =
        round_lem fuel p (rounds_lem fuel) (omega (arith, on)) enough

-- the search, where the lookup tells which pages are mapped
pub find-Fit :
    (s : Vmm) (ctx size start end : ℕ)
    → ctx ≢ 0
    → size ≢ 0
    → start < end
    → end + size + 2 * 4096 ≤ 2 ^ 64
    → Fit
        (mapped_at s ctx)
        (vmm_size_to_pages size)
        end
        ((start + 4095) / 4096)
        (vmm_find_free_region s ctx size start end)
unfolding vmm_find_free_region vmm_size_to_pages vmm_page_align_up vmm_page_align_down
find-Fit s ctx size start end exists some_size below room =
    let n = vmm_size_to_pages size in
    let q = (start + 4095) / 4096 in
    let (r, ends, fit) =
      round_lem s ctx n end (omega (arith, some_size)) (omega (arith, room)) (end / 4096) q
        (rounds_lem s ctx n end (omega (arith, some_size)) (omega (arith, room)) (end / 4096))
        (omega (arith, below)) (omega arith) in
    let first : vmm_page_align_up start ≡ q * 4096 =
      align_down_value (u64 (start + 4095)) (omega arith) ∙ omega (arith, below, room) in
    let guard : ((ctx == 0) || (size == 0) || leb end start) ≡ false = ground (arith, exists) in
    let fuel : end / 4096 + 1 ≡ suc (end / 4096) = omega arith in
    let search = λ (fuel a : ℕ). or_null (region_from fuel s ctx n end a) in
    let value : vmm_find_free_region s ctx size start end ≡ r =
      ap (λ (b : Bool). if b then 0 else search (end / 4096 + 1) (vmm_page_align_up start)) guard
      ∙ ap (λ f. search f (vmm_page_align_up start)) fuel
      ∙ ap (search (suc (end / 4096))) first
      ∙ ap or_null ends in
    subst (Fit (mapped_at s ctx) n end q) (sym value) fit
