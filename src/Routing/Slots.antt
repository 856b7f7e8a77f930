-- ===== src/Routing/Slots.antt =====
-- The loops over the four slots of a bucket of routing_table.c.
use box_kernel.Base.{
  ℕ, ◌+◌, ◌≤◌, ◌≡◌, ◌≢◌, refl, false, arith, List, [], ◌∷◌, length, Option, none, some, ◌==◌,
  if◌then◌else◌, ◌⊎◌, inl, inr, Bool-cases,
}
use box_kernel.Events.{RoutingEntry}
use box_kernel.Routing.{place, release, under}

-- how many slots are taken
abbrev pub occupied : List RoutingEntry → ℕ
occupied [] = 0
occupied (e ∷ es) = (if e.event_id == 0 then 0 else 1) + occupied es

-- the entry of an id
abbrev pub find : ℕ → List RoutingEntry → Option RoutingEntry
find id [] = none
find id (e ∷ es) = if e.event_id == id then some e else find id es

-- no id is in two slots
abbrev pub Distinct : List RoutingEntry → Type 0
Distinct [] = Unit
Distinct (e ∷ es) = ((e.event_id ≡ 0) ⊎ (find e.event_id es ≡ none)) × Distinct es

pub occupied-le-length : (es : List RoutingEntry) → occupied es ≤ length es
occupied-le-length [] = omega arith
occupied-le-length (e ∷ es) = ground (arith, occupied-le-length es)

-- What the insertion's loop does: no slot is free, or the entry has one more slot than there were,
-- and a fresh id is the only one whose entry changes.
abbrev pub Placed : RoutingEntry → List RoutingEntry → Option (List RoutingEntry) → Type 0
Placed entry es none = occupied es ≡ length es
Placed entry es (some es') =
    (length es' ≡ length es)
    × (occupied es' ≡ occupied es + 1)
    × ((j : ℕ)
        → j ≢ 0
        → find entry.event_id es ≡ none
        → find j es' ≡ (if entry.event_id == j then some entry else find j es))
    × (find entry.event_id es ≡ none → Distinct es → Distinct es')

module _ (entry : RoutingEntry) (valid : entry.event_id ≢ 0) where
  fresh-tail :
      (e : RoutingEntry) (es : List RoutingEntry)
      → find entry.event_id (e ∷ es) ≡ none
      → (find entry.event_id es ≡ none) × ((e.event_id == entry.event_id) ≡ false)
  fresh-tail e es h = ground arith

  under-Placed :
      (e : RoutingEntry) (es : List RoutingEntry) (o : Option (List RoutingEntry))
      → (e.event_id == 0) ≡ false
      → Placed entry es o
      → Placed entry (e ∷ es) (under e o)
  under-Placed e es none taken h = ground arith
  under-Placed e es (some es') taken (len, occ, look, dist) = (
    ground arith,
    ground arith,
    λ j nz fresh. ground (arith, fresh-tail e es fresh, look j nz (fresh-tail e es fresh).0),
    λ fresh d. (
      ground (
        arith,
        d.0,
        fresh-tail e es fresh,
        look e.event_id (ground arith) (fresh-tail e es fresh).0,
      ),
      dist (fresh-tail e es fresh).0 d.1,
    ),
  )

  pub place-Placed : (es : List RoutingEntry) → Placed entry es (place entry es)
  unfolding place
  place-Placed [] = refl
  place-Placed (e ∷ es) = elim (Bool-cases (e.event_id == 0)) [
    | inl free ↦ rw free (
      refl,
      ground arith,
      λ j nz fresh. ground arith,
      λ fresh d. (inr (fresh-tail e es fresh).0, d.1),
    )
    | inr taken ↦ rw taken (under-Placed e es (place entry es) taken (place-Placed es))
  ]

-- What the removal's loop does: the id is in no slot, or one slot less is taken and the id is gone.
abbrev pub Released : ℕ → List RoutingEntry → Option (List RoutingEntry) → Type 0
Released id es none = find id es ≡ none
Released id es (some es') =
    (length es' ≡ length es)
    × (occupied es ≡ occupied es' + 1)
    × ((j : ℕ) → j ≢ 0 → Distinct es → find j es' ≡ (if id == j then none else find j es))
    × (Distinct es → Distinct es')
    × (find id es ≢ none)

module _ (id : ℕ) (valid : id ≢ 0) where
  under-Released :
      (e : RoutingEntry) (es : List RoutingEntry) (o : Option (List RoutingEntry))
      → (e.event_id == id) ≡ false
      → Released id es o
      → Released id (e ∷ es) (under e o)
  under-Released e es none other h = ground arith
  under-Released e es (some es') other (len, occ, look, dist, there) = (
    ground arith,
    ground arith,
    λ j nz d. ground (arith, look j nz d.1),
    λ d. (kept d, dist d.1),
    ground arith,
  )
    where
      kept : Distinct (e ∷ es) → (e.event_id ≡ 0) ⊎ (find e.event_id es' ≡ none)
      kept d = elim (Bool-cases (e.event_id == 0)) [
        | inl zero_id ↦ inl (ground arith)
        | inr used ↦ inr (ground (arith, d.0, look e.event_id (ground arith) d.1))
      ]

  pub release-Released : (es : List RoutingEntry) → Released id es (release id es)
  unfolding release
  release-Released [] = refl
  release-Released (e ∷ es) = elim (Bool-cases (e.event_id == id)) [
    | inl hit ↦
        rw hit
          (refl, ground arith, λ j nz d. ground (arith, d.0), λ d. (inl refl, d.1), ground arith)
    | inr miss ↦ rw miss (under-Released e es (release id es) miss (release-Released es))
  ]
