-- ===== src/Routing/Remove.antt =====
-- `routing_table_remove` and `routing_table_lookup` of routing_table.c.
use mathlib.Core.Option
use box_kernel.Base.{
  ℕ, suc, ◌≡◌, ◌≢◌, refl, ◌∙◌, Bool, true, false, arith, List, [], ◌∷◌, Option, none, some, ◌==◌,
  if◌then◌else◌, ◌⊎◌, inl, inr, Bool-cases, sub64, sub32, update, get_or,
}
use box_kernel.Events.{RoutingEntry}
use box_kernel.Routing.{
  RoutingTable, routing_table_index, routing_table_remove, routing_table_lookup, release, find_slot,
  deref, zero_entry,
}
use box_kernel.Routing.Slots.{find, Released, release-Released}
use box_kernel.Routing.Invariant.{
  IsValid, slots_at, find-update, get, occupied-le, total-le, occupied_at-le-total, replace-IsValid,
  routing_table_index-lt,
}

abbrev pub is_some {ℓ} : {A : Type ℓ} → Option A → Bool
is_some none = false
is_some (some x) = true

is_some_of_ne_none {ℓ} : {A : Type ℓ} (o : Option A) → o ≢ none → true ≡ is_some o
is_some_of_ne_none none h = absurd (h refl)
is_some_of_ne_none (some x) h = refl

behind :
    (e : RoutingEntry) (es : List RoutingEntry) (o : Option ℕ)
    → Option.map (λ slot. get_or (e ∷ es) slot zero_entry) (Option.map suc o)
      ≡ Option.map (λ slot. get_or es slot zero_entry) o
behind e es none = refl
behind e es (some slot) = refl

find_slot-find :
    (id : ℕ) (es : List RoutingEntry)
    → Option.map (λ slot. get_or es slot zero_entry) (find_slot id es) ≡ find id es
unfolding find_slot
find_slot-find id [] = refl
find_slot-find id (e ∷ es) = elim (Bool-cases (e.event_id == id)) [
  | inl hit ↦ rw hit
  | inr miss ↦ rw miss (behind e es (find_slot id es) ∙ find_slot-find id es)
]

-- The pointer that a lookup returns leads to the entry of the id, and it returns NULL exactly when
-- the id has none.
pub deref-routing_table_lookup :
    (t : RoutingTable) (id : ℕ) → Option.map (deref t) (routing_table_lookup t id) ≡ get t id
unfolding routing_table_lookup
deref-routing_table_lookup t id = through (find_slot id slots) ∙ find_slot-find id slots
  where
    slots : List RoutingEntry
    slots = slots_at t (routing_table_index id)

    through :
        (o : Option ℕ)
        → Option.map
            (deref t)
            (Option.map (λ slot. record { bucket = routing_table_index id; slot = slot }) o)
          ≡ Option.map (λ slot. get_or slots slot zero_entry) o
    through none = refl
    through (some slot) = refl

abbrev removed : RoutingTable → ℕ → List RoutingEntry → RoutingTable
removed t id es =
    let i = routing_table_index id in
    record t {
      buckets = update t.buckets i (record { count = sub32 (t.buckets i).count 1; entries = es });
      total_entries = sub64 t.total_entries 1;
    }

module _ {t : RoutingTable} (v : IsValid t) (id : ℕ) where
  abbrev Outcome : Type 0
  Outcome =
      ((get t id ≡ none) × (routing_table_remove t id ≡ (false, t)))
      ⊎ ((es : List RoutingEntry) × Released id (slots_at t (routing_table_index id)) (some es)
          × (routing_table_remove t id ≡ (true, removed t id es)))

  remove-cases : id ≢ 0 → Outcome
  unfolding routing_table_remove
  remove-cases nz = go (release id slots) refl (release-Released id nz slots)
    where
      slots : List RoutingEntry
      slots = slots_at t (routing_table_index id)

      go :
          (o : Option (List RoutingEntry))
          → release id slots ≡ o
          → Released id slots (release id slots)
          → Outcome
      go none e p = inl (rw e at p, rw (e, routing_table_remove))
      go (some es) e p = inr (es, rw e at p, rw (e, routing_table_remove))

  -- Removing an id, not 0, from a valid table leaves it valid.
  pub routing_table_remove-IsValid : id ≢ 0 → IsValid (routing_table_remove t id).1
  routing_table_remove-IsValid nz = elim (remove-cases nz) [
    | inl (absent, e) ↦ rw e v
    | inr (es, (len, occ, look, dist, there), e) ↦ rw e (
        replace-IsValid v (routing_table_index id) _ _ t.collisions (routing_table_index-lt id)
          (len ∙ v.sized (routing_table_index id))
          (omega
            (arith, v.counted (routing_table_index id), occupied-le v (routing_table_index id)))
          (dist (v.distinct (routing_table_index id)))
          (λ j nj h. home j nj (look j nj (v.distinct (routing_table_index id))) h)
          (omega (
            arith,
            total-le v,
            occupied_at-le-total v (routing_table_index id) (routing_table_index-lt id),
          )))
  ]
    where
      home :
          (j : ℕ) {o : Option RoutingEntry}
          → j ≢ 0
          → o ≡ (if id == j then none else find j (slots_at t (routing_table_index id)))
          → o ≢ none
          → routing_table_index j ≡ routing_table_index id
      home j nj e h = elim (Bool-cases (id == j)) [
        | inl same ↦ absurd (h (e ∙ rw same))
        | inr other ↦ v.homed (routing_table_index id) j nj (ground arith)
      ]

  -- From a valid table, the removal of an id that is not 0 succeeds exactly when the id has an
  -- entry; then that id has none, and every other id keeps its entry.
  pub get-routing_table_remove :
      (j : ℕ)
      → id ≢ 0
      → j ≢ 0
      → ((routing_table_remove t id).0 ≡ is_some (get t id))
        × (get (routing_table_remove t id).1 j ≡ (if id == j then none else get t j))
  get-routing_table_remove j nz nj = elim (remove-cases nz) [
    | inl (absent, e) ↦ rw (e, absent) (refl, ground arith)
    | inr (es, (len, occ, look, dist, there), e) ↦ rw e (
      is_some_of_ne_none (get t id) there,
      ground (
        arith,
        look j nj (v.distinct (routing_table_index id)),
        find-update t (routing_table_index id) (routing_table_index j) j
            (record { count = sub32 (t.buckets (routing_table_index id)).count 1; entries = es }),
      ),
    )
  ]
