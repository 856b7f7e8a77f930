-- ===== src/Lib.antt =====
-- The event pipeline of BoxKernel, a kernel in which every system call is an event. User space
-- writes an event into a ring; the Receiver validates it and gives it an id; Center checks it
-- against the security policy, determines its route and enters it into the routing table; Guide
-- scans the table and sends each entry to the queue of its next deck; the deck processes it; the
-- execution deck sends the response into a second ring and frees the entry's slot.
--
-- The parts, by file (paths from the repository's root, or below src/kernel/eventdriven):
--   Ring       core/ringbuffer.h: the rings of events and of responses, and the deck queues of
--              guide/guide.h. The three have the same code over different elements, so `ring_push` is
--              event_ring_push, response_ring_push and deck_queue_push. Ring/Queue is the
--              specification, a bounded queue; Ring/Wait is the bounded wait for room.
--   Events     core/events.h: events, responses, routing entries and the operations on their prefixes.
--   Routing    routing/routing_table.h and routing_table.c: the hash table from ids to entries.
--   Klib       src/lib/kernel/klib.c: the string comparison, and in Klib/Heap the allocator of the
--              kernel's heap, a free list in the order of the addresses.
--   Receiver   receiver/receiver.h and receiver.c.
--   Center     center/center.h and center.c.
--   Guide      guide/guide.h and guide.c: Guide/Visit is one entry, Guide/Scan and Guide/Pass are the
--              scan of the table.
--   Deck       decks/deck_interface.h, deck_interface.c and network_deck.c.
--   Execution  execution/execution_deck.c.
--   System     eventdriven_system.h and eventdriven_system.c: a round of all stages.
--   UserApi    userlib/eventapi.c: the library of user space.
--   Pmm        src/kernel/core/memory/pmm/pmm.c: the allocator of physical pages, with the memory map's
--              entries of core/memory/e820/e820.h, which Pmm/Init reads. It serves the rest of the
--              kernel; the pipeline does not call it.
--   Vmm        src/kernel/core/memory/vmm/vmm.c and vmm.h: page tables over the pages of Pmm. Vmm/Table
--              is the walk through the tables, Vmm/Page mapping, unmapping, protection and lookup,
--              Vmm/Region the search for a free region and the allocations, Vmm/Contexts the contexts,
--              the start and page faults. Vmm/Tree says that the tables of a context are a tree,
--              Vmm/Grow and Vmm/Walk that new tables keep it one, and Vmm/Space is the specification:
--              a map from pages to frames and flags.
--   Task       task/task.h and task.c. Task/Table is the table of tasks, Task/Queue the scheduler's
--              linked list, Task/Spawn creation and destruction, Task/Control the states and the
--              energy, Task/Health the metrics and the timer's handler, Task/Schedule the choice of
--              the next task, Task/Group the groups. Task/Queue/Links says when memory holds a
--              list, and the lemmas on the queue's operations are about that list.
--   Tagfs      storage/tagfs.h and tagfs.c: the tags of files, the index from tags to files, the
--              queries, the user's context and the trash.
--   Tests      runs at concrete inputs.
-- A function of the source has the definition of its name. A loop's body, or a block that the source
-- repeats, is a helper of its own: `visit_entry`, `finish` and `dispatch` for the body of Guide's scan,
-- `push_wait` for the wait of Receiver and Center.
--
-- State. A component's globals are a record, and an operation returns the new one. Counters of
-- fixed width wrap (`u64`, `sub64`). A pointer into the routing table is an `EntryRef`, a bucket
-- and a slot; a queue holds such pointers, so an entry that changes in the table changes for every
-- queue. Arrays are lists or functions of the index; a `void*` is the number of its address.
--
-- Time and other processors. `rdtsc()` is the argument `now`. An operation is one step, so the
-- memory order of the atomics and the bucket locks are left out. In the waits other processors act:
-- what they do to the ring in a `cpu_pause()` is the argument `pause`, and `IsConsumer` is what is
-- asked of it: it takes elements off the front of the ring and keeps its counters valid.
--
-- Memory. The task system points into memory, so there tasks are a function of the address, and a
-- line of the source that writes through a pointer is an update that the next line reads. What the
-- allocators return is an input (`Supply`), as are the times that the clock reads.
--
-- A table of pages is known by its physical address, under which the kernel reaches it both before
-- and after `vmm_init`; what `kmalloc` returned is an argument there.
--
-- The free list of the heap is the list of the addresses along its links; sizes and magic numbers
-- are functions of the address. A call that ends in a panic has no result.
--
-- Bounds and fuel. The loop of `eventapi_poll_response` has the ring's count as its bound, which
-- empties the ring. The waits of Receiver and Center end after `push_timeout` tries, as in the
-- source. The waits of the execution deck and of `eventapi_submit_event` have no bound in the
-- source; here they have fuel and return `none` when that runs out. Room in the ring at the first
-- try is enough fuel, and with a full ring that nobody empties no fuel is. The search for a free
-- region has the number of pages below its end as fuel, and each round moves by a page at least.
--
-- Not modelled: output to the console; the endless loops around one step of each component; the
-- decks that work on tasks, files and devices, whose processing function is an argument of
-- `deck_run_once` and of the round; the contents of mapped pages, the TLB but for its count of
-- flushes, the blocks of files, drivers and the processor's tables.
pub mod Base
pub mod Ring
pub mod Events
pub mod Routing
pub mod Klib
pub mod Receiver
pub mod Center
pub mod Guide
pub mod Deck
pub mod Execution
pub mod System
pub mod UserApi
pub mod Pmm
pub mod Vmm
pub mod Task
pub mod Tagfs
pub mod Tests
