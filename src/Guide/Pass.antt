-- ===== src/Guide/Pass.antt =====
-- Four scans of Guide are one pass over the routing table. guide.h, `guide_scan_and_route`.
use box_kernel.Base.{ℕ, zero, suc, ◌+◌, ◌-◌, ◌%◌, ◌≤◌, ◌<◌, ◌≡◌, ◌⊎◌}
use box_kernel.Routing.{RoutingTable, routing_table_size}
use box_kernel.Routing.Invariant.{slots_at}
use box_kernel.Guide.{Guide, Queues, visit_slots}

-- The queues after `n` buckets of a table, in order from a scan position, when each of their entries
-- has been visited once: a pass over the table as it was.
unfoldable pub passed : ℕ → RoutingTable → ℕ → Queues → Queues
passed zero t position q = q
passed (suc n) t position q =
    let b = (position + n) % routing_table_size in
    (visit_slots b 0 (slots_at t b) (passed n t position q)).1

-- the same from where a scan stands
abbrev pub queues_after : ℕ → Guide → Queues
queues_after n g = passed n g.routing_table g.scan_position g.queues

-- how many buckets the scan passes before it is at `b`
abbrev pub distance : ℕ → ℕ → ℕ
distance position b = (b + 64 - position % 64) % 64

-- The entries of bucket `b` are those of `g`, each visited once, in order, with the queues as the
-- buckets before it leave them.
abbrev pub Visited : ℕ → Guide → Guide → Type 0
Visited b g h =
    slots_at h.routing_table b
    ≡ (visit_slots b 0 (slots_at g.routing_table b) (queues_after (distance g.scan_position b) g)).0

-- whether `n` steps from `g`, to `h`, visit bucket `b` once or do not come to it
abbrev Reached : ℕ → ℕ → Guide → Guide → Type 0
Reached n b g h =
    ((distance g.scan_position b < n) × Visited b g h)
    ⊎ ((n ≤ distance g.scan_position b) × (slots_at h.routing_table b ≡ slots_at g.routing_table b))
