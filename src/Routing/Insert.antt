-- ===== src/Routing/Insert.antt =====
-- `routing_table_insert` of routing_table.c.
use box_kernel.Base.{
  ℕ, ◌+◌, ◌<◌, ◌≡◌, ◌≢◌, refl, ◌∙◌, ap, true, false, arith, List, Option, none, some, ◌==◌, ltb,
  leb, if◌then◌else◌, ◌⊎◌, inl, inr, Bool-cases, lt→ltb, u64, u32, update, ◌&&◌,
}
use box_kernel.Events.{RoutingEntry}
use box_kernel.Routing.{
  RoutingTable, bucket_capacity, routing_table_index, routing_table_insert, place,
}
use box_kernel.Routing.Slots.{find, Placed, place-Placed}
use box_kernel.Routing.Invariant.{
  IsValid, slots_at, find-update, get, occupied_at, occupied-le, total-le, replace-IsValid,
  routing_table_index-lt,
}

-- the table after a refused insertion, and after one that has put `es` into the entry's bucket
abbrev refused : RoutingTable → RoutingTable
refused t = record t { collisions = u64 (t.collisions + 1) }

abbrev stored : RoutingTable → RoutingEntry → List RoutingEntry → RoutingTable
stored t entry es =
    let i = routing_table_index entry.event_id in
    record t {
      buckets = update t.buckets i (record { count = u32 ((t.buckets i).count + 1); entries = es });
      total_entries = u64 (t.total_entries + 1);
    }

module _ {t : RoutingTable} (v : IsValid t) (entry : RoutingEntry) where
  abbrev Outcome : Type 0
  Outcome =
      ((occupied_at t (routing_table_index entry.event_id) ≡ bucket_capacity)
        × (routing_table_insert t entry ≡ (false, refused t)))
      ⊎ ((es : List RoutingEntry) × (occupied_at t (routing_table_index entry.event_id)
            < bucket_capacity)
          × Placed entry (slots_at t (routing_table_index entry.event_id)) (some es)
          × (routing_table_insert t entry ≡ (true, stored t entry es)))

  -- The two ways an insertion goes; the source's third branch is never taken.
  insert-cases : entry.event_id ≢ 0 → Outcome
  unfolding routing_table_insert
  insert-cases nz = elim (Bool-cases (leb bucket_capacity (t.buckets i).count)) [
    | inl full ↦ inl (ground (arith, v.counted i, occupied-le v i), rw full)
    | inr room ↦ go (place entry (slots_at t i)) refl (place-Placed entry nz (slots_at t i)) room
  ]
    where
      i : ℕ
      i = routing_table_index entry.event_id

      go :
          (o : Option (List RoutingEntry))
          → place entry (slots_at t i) ≡ o
          → Placed entry (slots_at t i) (place entry (slots_at t i))
          → leb bucket_capacity (t.buckets i).count ≡ false
          → Outcome
      go none e p room = absurd (ground (arith, v.counted i, v.sized i, rw e at p))
      go (some es) e p room =
          inr (es, ground (arith, v.counted i), rw e at p, rw (room, e, routing_table_insert))

  -- Inserting an entry with a fresh id, not 0, into a valid table leaves it valid.
  pub routing_table_insert-IsValid :
      entry.event_id ≢ 0 → get t entry.event_id ≡ none → IsValid (routing_table_insert t entry).1
  routing_table_insert-IsValid nz fresh = elim (insert-cases nz) [
    | inl (full, e) ↦ rw e (record {
      sized = v.sized;
      counted = v.counted;
      distinct = v.distinct;
      homed = v.homed;
      total = v.total;
    })
    | inr (es, room, (len, occ, look, dist), e) ↦ rw e (
        replace-IsValid v (routing_table_index entry.event_id) _ _ t.collisions
          (routing_table_index-lt entry.event_id)
          (len ∙ v.sized (routing_table_index entry.event_id))
          (omega (arith, v.counted (routing_table_index entry.event_id)))
          (dist fresh (v.distinct (routing_table_index entry.event_id)))
          (λ id nid h. home id _ nid (look id nid fresh) h) (omega (arith, total-le v)))
  ]
    where
      home :
          (id : ℕ) (es : List RoutingEntry)
          → id ≢ 0
          → find id es ≡ (
              if entry.event_id == id
              then some entry
              else find id (slots_at t (routing_table_index entry.event_id)))
          → find id es ≢ none
          → routing_table_index id ≡ routing_table_index entry.event_id
      home id es nid e h = elim (Bool-cases (entry.event_id == id)) [
        | inl same ↦ ap routing_table_index (ground arith)
        | inr other ↦ v.homed (routing_table_index entry.event_id) id nid (ground arith)
      ]

  -- An insertion of an id that is not 0 into a valid table is refused exactly when the bucket of
  -- the id's hash is full, and then only the collisions are counted.
  pub routing_table_insert-refused :
      entry.event_id ≢ 0
      → ((routing_table_insert t entry).0
          ≡ ltb (occupied_at t (routing_table_index entry.event_id)) bucket_capacity)
        × ((routing_table_insert t entry).1.total_entries
            ≡ t.total_entries + (if (routing_table_insert t entry).0 then 1 else 0))
        × ((routing_table_insert t entry).1.collisions
            ≡ (if (routing_table_insert t entry).0 then t.collisions else u64 (t.collisions + 1)))
  routing_table_insert-refused nz = elim (insert-cases nz) [
    | inl (full, e) ↦ rw (e, full) (refl, omega arith, refl)
    | inr (es, room, placed, e) ↦ rw (e, lt→ltb _ _ room) (refl, omega (arith, total-le v), refl)
  ]

  -- After an insertion into a valid table, of an id that is fresh and not 0, that is accepted the
  -- id maps to the entry; no other id is affected, and none by an insertion that is refused.
  pub get-routing_table_insert :
      (j : ℕ)
      → entry.event_id ≢ 0
      → j ≢ 0
      → get t entry.event_id ≡ none
      → get (routing_table_insert t entry).1 j ≡ (
          if (routing_table_insert t entry).0 && (entry.event_id == j) then some entry else get t j)
  get-routing_table_insert j nz nj fresh = elim (insert-cases nz) [
    | inl (full, e) ↦ rw e
    | inr (es, room, (len, occ, look, dist), e) ↦ rw e (at_j es (look j nj fresh))
  ]
    where
      at_j :
          (es : List RoutingEntry)
          → find j es ≡ (
              if entry.event_id == j
              then some entry
              else find j (slots_at t (routing_table_index entry.event_id)))
          → get (stored t entry es) j ≡ (if entry.event_id == j then some entry else get t j)
      at_j es look = ground (
        arith,
        look,
        find-update t (routing_table_index entry.event_id) (routing_table_index j) j (record {
          count = u32 ((t.buckets (routing_table_index entry.event_id)).count + 1);
          entries = es;
        }),
      )
