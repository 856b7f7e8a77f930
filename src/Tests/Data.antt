-- ===== src/Tests/Data.antt =====
-- The inputs of the tests: rings whose counters are about to wrap, a small routing table, an event.
use box_kernel.Base.{ℕ, ◌-◌, ◌^◌, ◌≡◌, refl, [], ◌∷◌, none, arith, replicate}
use box_kernel.Ring.{RingBuffer, ring_buffer_size, deck_queue_size}
use box_kernel.Ring.Inv
use box_kernel.Ring.Wait.{IsConsumer}
use box_kernel.Events.{Event, RoutingEntry, routing_entry_init}
use box_kernel.Events.EventType
use box_kernel.Routing.{RoutingTable, EntryRef, routing_table_init, routing_table_insert}
use box_kernel.Routing.Invariant
use box_kernel.Routing.Invariant.{init-IsValid, get}
use box_kernel.Routing.Insert.{routing_table_insert-IsValid}
use box_kernel.Center.{routed_entry}
use box_kernel.Guide.{Queues, Guide}
use box_kernel.Guide.Visit
use box_kernel.Guide.Scan

-- two elements, with the tail past the counters' wrap
abbrev pub wrapped {ℓ} : {A : Type ℓ} → A → RingBuffer A
wrapped x = record { head = 2 ^ 64 - 1; tail = 1; slots = λ _. x }

pub wrapped-IsValid {ℓ} : {A : Type ℓ} → (x : A) → Inv.IsValid deck_queue_size (wrapped x)
wrapped-IsValid x = record {
  head_range = omega arith;
  tail_range = omega arith;
  fits = omega arith;
}

pub wrapped_256-IsValid {ℓ} : {A : Type ℓ} → (x : A) → Inv.IsValid ring_buffer_size (wrapped x)
wrapped_256-IsValid x = record {
  head_range = omega arith;
  tail_range = omega arith;
  fits = omega arith;
}

-- a full ring of 256
abbrev pub packed {ℓ} : {A : Type ℓ} → A → RingBuffer A
packed x = record { head = 7; tail = 263; slots = λ _. x }

pub packed-IsValid {ℓ} : {A : Type ℓ} → (x : A) → Inv.IsValid ring_buffer_size (packed x)
packed-IsValid x = record { head_range = omega arith; tail_range = omega arith; fits = omega arith }

-- a pause in which nobody takes anything
abbrev pub quiet {ℓ} : {A : Type ℓ} → ℕ → RingBuffer A → RingBuffer A
quiet n r = r

pub quiet-IsConsumer {ℓ} : {A : Type ℓ} → IsConsumer {A = A} ring_buffer_size quiet
quiet-IsConsumer = record { keeps = λ n r v. v; takes = λ n r v. ([], refl) }

-- a request for a megabyte by process 5, and the same once it has been given the id 9
abbrev pub request : Event
request = record {
  id = 0;
  user_id = 5;
  timestamp = 0;
  type = EventType.memory_alloc;
  flags = 0;
  payload = 0 ∷ 0 ∷ 16 ∷ replicate 221 0;
}

abbrev pub accepted : Event
accepted = record request { id = 9; timestamp = 100 }

-- an attempt to open /etc/shadow
abbrev pub attack : Event
attack = record accepted {
  type = EventType.file_open;
  payload =
      b'/' ∷ b'e' ∷ b't' ∷ b'c' ∷ b'/' ∷ b's' ∷ b'h' ∷ b'a' ∷ b'd' ∷ b'o' ∷ b'w' ∷ replicate 213 0;
}

-- its entry, with one step to go, and a pointer to a slot of the table
abbrev pub entry : RoutingEntry
entry = routed_entry 100 accepted

abbrev pub slot : EntryRef
slot = record { bucket = 3; slot = 1 }

pub none_at_first : get routing_table_init 9 ≡ none
unfolding routing_table_init routing_entry_init
none_at_first = refl

-- the table with that entry
abbrev pub table : RoutingTable
table = (routing_table_insert routing_table_init entry).1

pub table-IsValid : Invariant.IsValid table
unfolding routed_entry
table-IsValid = routing_table_insert-IsValid init-IsValid entry (omega arith) none_at_first

abbrev pub queues : Queues
queues = record {
  deck_queues = λ _. wrapped slot;
  execution_queue = wrapped slot;
  stats = record { events_routed = 0; events_completed = 0; routing_iterations = 0 };
}

pub queues-IsValid : Visit.IsValid queues
queues-IsValid = record { decks = λ _. wrapped-IsValid slot; execution = wrapped-IsValid slot }

abbrev pub guide : Guide
guide = record { routing_table = table; queues = queues; scan_position = 2 ^ 64 - 7 }

pub guide-IsValid : Scan.IsValid guide
guide-IsValid = record { table = table-IsValid; queues = queues-IsValid }
