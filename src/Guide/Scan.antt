-- ===== src/Guide/Scan.antt =====
-- Guide's scan over the buckets. guide.h, `guide_scan_and_route`.
use native.Mathlib.Nat.{mod-lt}
use box_kernel.Base.{ℕ, zero, suc, ◌+◌, ◌%◌, arith, List, [], ◌∷◌}
use box_kernel.Events.{RoutingEntry}
use box_kernel.Routing.{EntryRef, routing_table_size}
use box_kernel.Routing.Invariant
use box_kernel.Routing.Invariant.{slots_at}
use box_kernel.Routing.Same.{SameIds, same_ids-IsValid}
use box_kernel.Guide.{
  Guide, Queues, visit_entry, visit_slots, scan_bucket, scan_buckets, guide_scan_and_route,
}
use box_kernel.Guide.Visit
use box_kernel.Guide.Visit.{visit_entry-IsValid, visit_entry-same}

visit_slots-SameIds :
    (b slot : ℕ) (es : List RoutingEntry) (q : Queues) → SameIds es (visit_slots b slot es q).0
unfolding visit_slots
visit_slots-SameIds b slot [] q = tt
visit_slots-SameIds b slot (e ∷ es) q =
    let ref : EntryRef = record { bucket = b; slot = slot } in
    ((visit_entry-same ref e q).0, visit_slots-SameIds b (slot + 1) es (visit_entry ref e q).1)

visit_slots-IsValid :
    (b slot : ℕ) (es : List RoutingEntry) {q : Queues}
    → Visit.IsValid q
    → Visit.IsValid (visit_slots b slot es q).1
unfolding visit_slots
visit_slots-IsValid b slot [] v = v
visit_slots-IsValid b slot (e ∷ es) v =
    visit_slots-IsValid b (slot + 1) es
      (visit_entry-IsValid (record { bucket = b; slot = slot }) e v)

-- the routing table is valid, and so is every queue
pub record IsValid (g : Guide) : Type 0 where
  pub table : Invariant.IsValid g.routing_table
  pub queues : Visit.IsValid g.queues

scan_bucket-IsValid : {g : Guide} → IsValid g → IsValid (scan_bucket g)
unfolding scan_bucket
scan_bucket-IsValid {g} v =
    let b = g.scan_position % routing_table_size in
    record {
      table =
          same_ids-IsValid b _ (mod-lt g.scan_position (omega arith))
            (visit_slots-SameIds b 0 (slots_at g.routing_table b) g.queues) v.table;
      queues = visit_slots-IsValid b 0 (slots_at g.routing_table b) v.queues;
    }

scan_buckets-IsValid : (n : ℕ) {g : Guide} → IsValid g → IsValid (scan_buckets n g)
unfolding scan_buckets
scan_buckets-IsValid zero v = v
scan_buckets-IsValid (suc n) v = scan_buckets-IsValid n (scan_bucket-IsValid v)

-- A scan keeps the routing table and every queue valid.
pub guide_scan_and_route-IsValid : {g : Guide} → IsValid g → IsValid (guide_scan_and_route g)
unfolding guide_scan_and_route
guide_scan_and_route-IsValid v = scan_buckets-IsValid 16 v
