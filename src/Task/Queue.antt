-- ===== src/Task/Queue.antt =====
-- The scheduler's queue: task.c, `scheduler_enqueue` and `scheduler_dequeue`. A doubly linked list
-- through the tasks. Each line writes memory, and the next reads what it has written.
pub mod Links
pub mod Enqueue
pub mod Dequeue
pub mod Fields
use box_kernel.Base.{ℕ, ◌==◌, if◌then◌else◌, update}
use box_kernel.Task.{Ptr, null, Task, TaskQueue}

abbrev pub set_next : (Ptr → Task) → Ptr → Ptr → Ptr → Task
set_next tasks p q = update tasks p (record (tasks p) { next = q })

abbrev pub set_prev : (Ptr → Task) → Ptr → Ptr → Ptr → Task
set_prev tasks p q = update tasks p (record (tasks p) { prev = q })

unfoldable pub scheduler_enqueue : TaskQueue → Ptr → TaskQueue
scheduler_enqueue q task =
    let tasks = set_prev (set_next q.tasks task null) task q.tail in
    if q.tail == null
    then record { tasks = tasks; head = task; tail = task }
    else record { tasks = set_next tasks q.tail task; head = q.head; tail = task }

-- `task->prev->next = task->next`, or the head
abbrev pub bypass_prev : TaskQueue → Ptr → TaskQueue
bypass_prev q task =
    let t = q.tasks task in
    if t.prev == null
    then record q { head = t.next }
    else record q { tasks = set_next q.tasks t.prev t.next }

-- `task->next->prev = task->prev`, or the tail
abbrev pub bypass_next : TaskQueue → Ptr → TaskQueue
bypass_next q task =
    let t = q.tasks task in
    if t.next == null
    then record q { tail = t.prev }
    else record q { tasks = set_prev q.tasks t.next t.prev }

unfoldable pub scheduler_dequeue : TaskQueue → Ptr → TaskQueue
scheduler_dequeue q task =
    let q' = bypass_next (bypass_prev q task) task in
    record q' { tasks = set_prev (set_next q'.tasks task null) task null }
