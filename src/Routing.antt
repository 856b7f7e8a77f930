-- ===== src/Routing.antt =====
-- The routing table: src/kernel/eventdriven/routing/routing_table.h and routing_table.c. A hash
-- table of 64 buckets of four slots; a slot is free when its event id is 0. The buckets are a
-- function of their index. Each operation holds its bucket's lock from its first access to its
-- last, so it is one step here and the lock word is not part of the state.
pub mod Slots
pub mod Invariant
pub mod Insert
pub mod Remove
pub mod Same
use mathlib.Core.Option
use box_kernel.Base.{
  ℕ, suc, ◌+◌, ◌-◌, ◌*◌, ◌/◌, ◌^◌, Bool, true, false, Option, none, some, List, [], ◌∷◌, bit_and,
  bit_xor, u64, u32, sub64, sub32, leb, ◌==◌, if◌then◌else◌, update, get_or, set, replicate,
}
use box_kernel.Events.{EventStatus, RoutingEntry, routing_entry_init, event_init}

abbrev pub routing_table_size : ℕ
routing_table_size = 64

abbrev pub bucket_capacity : ℕ
bucket_capacity = 4

pub record RoutingBucket : Type 0 where
  pub count : ℕ
  pub entries : List RoutingEntry

pub record RoutingTable : Type 0 where
  pub buckets : ℕ → RoutingBucket
  pub total_entries : ℕ
  pub collisions : ℕ

-- `event_id >> 33`
abbrev shift_33 : ℕ → ℕ
shift_33 n = n / 2 ^ 33

unfoldable pub hash_event_id : ℕ → ℕ
hash_event_id event_id =
    let a = bit_xor event_id (shift_33 event_id) in
    let b = u64 (a * 0xff51afd7ed558ccd) in
    let c = bit_xor b (shift_33 b) in let d = u64 (c * 0xc4ceb9fe1a85ec53) in bit_xor d (shift_33 d)

unfoldable pub routing_table_index : ℕ → ℕ
routing_table_index event_id = bit_and (hash_event_id event_id) (routing_table_size - 1)

-- an entry of zero bytes
abbrev pub zero_entry : RoutingEntry
zero_entry = record (routing_entry_init 0 (event_init 0 0)) { state = EventStatus.success }

-- `memset(table, 0, sizeof(RoutingTable))`
unfoldable pub routing_table_init : RoutingTable
routing_table_init = record {
  buckets = λ _. record { count = 0; entries = replicate bucket_capacity zero_entry };
  total_entries = 0;
  collisions = 0;
}

abbrev pub under : RoutingEntry → Option (List RoutingEntry) → Option (List RoutingEntry)
under e none = none
under e (some es) = some (e ∷ es)

-- the loop of the insertion: the first free slot takes the entry
unfoldable pub place : RoutingEntry → List RoutingEntry → Option (List RoutingEntry)
place entry [] = none
place entry (e ∷ es) = if e.event_id == 0 then some (entry ∷ es) else under e (place entry es)

-- the loop of the lookup: the first slot that holds the id
unfoldable pub find_slot : ℕ → List RoutingEntry → Option ℕ
find_slot event_id [] = none
find_slot event_id (e ∷ es) =
    if e.event_id == event_id then some 0 else Option.map suc (find_slot event_id es)

-- the loop of the removal: the first slot that holds the id is freed
unfoldable pub release : ℕ → List RoutingEntry → Option (List RoutingEntry)
release event_id [] = none
release event_id (e ∷ es) =
    if e.event_id == event_id
    then some (record e { event_id = 0; state = EventStatus.success } ∷ es)
    else under e (release event_id es)

-- `false` when the bucket is full. The last branch is the source's "must not happen".
unfoldable pub routing_table_insert : RoutingTable → RoutingEntry → Bool × RoutingTable
routing_table_insert table entry =
    let index = routing_table_index entry.event_id in
    let bucket = table.buckets index in
    if leb bucket_capacity bucket.count
    then (false, record table { collisions = u64 (table.collisions + 1) })
    else elim (place entry bucket.entries) [
      | none ↦ (false, table)
      | some es ↦ (
        true,
        record table {
          buckets =
              update table.buckets index (record { count = u32 (bucket.count + 1); entries = es });
          total_entries = u64 (table.total_entries + 1);
        },
      )
    ]

-- a pointer to an entry of the table
pub record EntryRef : Type 0 where
  pub bucket : ℕ
  pub slot : ℕ

-- `none` is NULL
unfoldable pub routing_table_lookup : RoutingTable → ℕ → Option EntryRef
routing_table_lookup table event_id =
    let index = routing_table_index event_id in
    Option.map (λ slot. record { bucket = index; slot = slot })
      (find_slot event_id (table.buckets index).entries)

unfoldable pub routing_table_remove : RoutingTable → ℕ → Bool × RoutingTable
routing_table_remove table event_id =
    let index = routing_table_index event_id in
    let bucket = table.buckets index in
    elim (release event_id bucket.entries) [
      | none ↦ (false, table)
      | some es ↦ (
        true,
        record table {
          buckets =
              update table.buckets index (record { count = sub32 bucket.count 1; entries = es });
          total_entries = sub64 table.total_entries 1;
        },
      )
    ]

unfoldable pub routing_table_is_full : RoutingTable → Bool
routing_table_is_full table = leb (routing_table_size * bucket_capacity) table.total_entries

-- `*ref`
abbrev pub deref : RoutingTable → EntryRef → RoutingEntry
deref table ref = get_or (table.buckets ref.bucket).entries ref.slot zero_entry

-- writes through a pointer
abbrev pub store : RoutingTable → EntryRef → RoutingEntry → RoutingTable
store table ref entry =
    let bucket = table.buckets ref.bucket in
    record table {
      buckets =
          update table.buckets ref.bucket
            (record bucket { entries = set bucket.entries ref.slot entry });
    }
