-- ===== src/Routing/Invariant.antt =====
-- The invariant of the routing table of routing_table.c: four slots to a bucket, counters that
-- count, no id twice, each id in the bucket of its hash.
use native.Mathlib.Nat.{mod-lt}
use box_kernel.Base.{
  ℕ, ◌+◌, ◌*◌, ◌≤◌, ◌<◌, ◌≡◌, ◌≢◌, refl, sym, ◌∙◌, ap, arith, List, length, Option, none, ◌==◌,
  if◌then◌else◌, inl, inr, Bool-cases, ap-if, ne→==, update, update_self, bit_and-mask, sum_below,
  sum_below-change, sum_below-le, term-le-sum_below, sum_below-zero,
}
use box_kernel.Events.{RoutingEntry, routing_entry_init}
use box_kernel.Routing.{
  RoutingTable, RoutingBucket, routing_table_size, bucket_capacity, hash_event_id,
  routing_table_index, routing_table_init,
}
use box_kernel.Routing.Slots.{occupied, find, Distinct, occupied-le-length}

abbrev pub slots_at : RoutingTable → ℕ → List RoutingEntry
slots_at t i = (t.buckets i).entries

-- the entry that an id is mapped to
abbrev pub get : RoutingTable → ℕ → Option RoutingEntry
get t id = find id (slots_at t (routing_table_index id))

abbrev pub occupied_at : RoutingTable → ℕ → ℕ
occupied_at t i = occupied (slots_at t i)

pub find-update :
    (t : RoutingTable) (i j id : ℕ) (b : RoutingBucket)
    → find id (update t.buckets i b j).entries
      ≡ (if i == j then find id b.entries else find id (slots_at t j))
find-update t i j id b = ap-if (λ (x : RoutingBucket). find id x.entries) (i == j) b (t.buckets j)

pub record IsValid (t : RoutingTable) : Type 0 where
  pub sized : (i : ℕ) → length (slots_at t i) ≡ bucket_capacity
  pub counted : (i : ℕ) → (t.buckets i).count ≡ occupied_at t i
  pub distinct : (i : ℕ) → Distinct (slots_at t i)
  pub homed : (i id : ℕ) → id ≢ 0 → find id (slots_at t i) ≢ none → routing_table_index id ≡ i
  pub total : t.total_entries ≡ sum_below routing_table_size (occupied_at t)

-- The hash is taken to a bucket of the table.
pub routing_table_index-lt : (id : ℕ) → routing_table_index id < routing_table_size
unfolding routing_table_index
routing_table_index-lt id =
    omega (arith, bit_and-mask 6 (hash_event_id id), mod-lt (hash_event_id id) {m = 64})

pub init-IsValid : IsValid routing_table_init
unfolding routing_table_init routing_entry_init
init-IsValid = record {
  sized = λ i. refl;
  counted = λ i. refl;
  distinct = λ i. (inl refl, (inl refl, (inl refl, (inl refl, tt))));
  homed = λ i id nz h. absurd (h (rw (ne→== 0 id (λ e. nz (sym e)))));
  total = sym (sum_below-zero 64 (λ _. 0) (λ i. refl));
}

module _ {t : RoutingTable} (v : IsValid t) where
  pub occupied-le : (i : ℕ) → occupied_at t i ≤ bucket_capacity
  occupied-le i = omega (arith, v.sized i, occupied-le-length (slots_at t i))

  -- The table holds at most 256 entries.
  pub total-le : t.total_entries ≤ routing_table_size * bucket_capacity
  total-le = omega (arith, v.total, sum_below-le 64 4 (occupied_at t) occupied-le)

  pub occupied_at-le-total : (i : ℕ) → i < routing_table_size → occupied_at t i ≤ t.total_entries
  occupied_at-le-total i below =
      omega (arith, v.total, term-le-sum_below 64 i (occupied_at t) below)

  -- A bucket may be replaced by one that keeps the laws, when the total is adjusted.
  pub replace-IsValid :
      (i : ℕ) (b : RoutingBucket) (n c : ℕ)
      → i < routing_table_size
      → length b.entries ≡ bucket_capacity
      → b.count ≡ occupied b.entries
      → Distinct b.entries
      → ((id : ℕ) → id ≢ 0 → find id b.entries ≢ none → routing_table_index id ≡ i)
      → n + occupied_at t i ≡ t.total_entries + occupied b.entries
      → IsValid (record { buckets = update t.buckets i b; total_entries = n; collisions = c })
  replace-IsValid i b n c below len cnt dist home tot = record {
    sized = λ j. ground (arith, v.sized j);
    counted = λ j. ground (arith, v.counted j);
    distinct = λ j. at_j Distinct j dist (v.distinct j);
    homed = λ j id nz. at_j' j id nz;
    total = omega (
      arith,
      v.total,
      tot,
      sum_below-change 64 i (occupied_at t) (λ j. occupied (update t.buckets i b j).entries) below
          (λ j ne. rw (ne→== i j ne)),
      ap (λ (x : RoutingBucket). occupied x.entries) (update_self t.buckets i b),
    );
  }
    where
      at_j :
          (P : List RoutingEntry → Type 0) (j : ℕ)
          → P b.entries
          → P (slots_at t j)
          → P (update t.buckets i b j).entries
      at_j P j p q = elim (Bool-cases (i == j)) [ inl e ↦ rw e p | inr e ↦ rw e q ]

      at_j' :
          (j id : ℕ)
          → id ≢ 0
          → find id (update t.buckets i b j).entries ≢ none
          → routing_table_index id ≡ j
      at_j' j id nz = elim (Bool-cases (i == j)) [
        | inl e ↦ rw e (λ h. home id nz h ∙ ground arith)
        | inr e ↦ rw e (v.homed j id nz)
      ]
