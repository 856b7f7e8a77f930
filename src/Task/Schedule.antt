-- ===== src/Task/Schedule.antt =====
-- The choice of the next task: task.c, `task_scheduler_next` and `task_scheduler_yield`.
pub mod Rotate
pub mod Yield
use box_kernel.Base.{
  ℕ, ◌+◌, ◌%◌, ◌^◌, Bool, true, false, not, ◌&&◌, ◌||◌, Option, none, some, ltb, leb, ◌==◌,
  if◌then◌else◌, update,
}
use box_kernel.Task.{
  Ptr, null, Task, TaskContext, TaskQueue, TaskState, running, sleeping, waiting_event, TaskSystem,
}
use box_kernel.Task.Queue.{set_next, set_prev}
use box_kernel.Task.Spawn.{put}
use box_kernel.Task.Control.{deref}

abbrev pub is_running : TaskState → Bool
is_running running = true
is_running _ = false

abbrev pub is_sleeping : TaskState → Bool
is_sleeping sleeping = true
is_sleeping _ = false

-- The task is taken to stand at the head, and moves to the tail.
unfoldable pub rotate : TaskQueue → Ptr → TaskQueue
rotate q task =
    let head = (q.tasks task).next in
    let tasks = if head == null then q.tasks else set_prev q.tasks head null in
    let moved = set_prev (set_next tasks task null) task q.tail in
    record {
      tasks = if q.tail == null then moved else set_next moved q.tail task;
      head = head;
      tail = task;
    }

-- The check for a task that sleeps: the task to go on with.
unfoldable pub roused : TaskSystem → Ptr → ℕ → Ptr × TaskSystem
roused s p now =
    let task = deref s p in
    if is_sleeping task.state
    then (if leb task.sleep_until now
        then (p, put s p (record task { state = running; sleep_until = 0 }))
        else (task.next, s))
    else (p, s)

-- the second part, for the task that the first has found
unfoldable pub take_turn : TaskSystem → Ptr → TaskSystem
take_turn s p =
    if not (p == null) && is_running (deref s p).state
    then record s {
      queue = rotate s.queue p;
      current_task = p;
      context_switches = (s.context_switches + 1) % 2 ^ 64;
    }
    else s

unfoldable pub task_scheduler_next : TaskSystem → ℕ → Ptr × TaskSystem
task_scheduler_next s now =
    let (p, s') = roused s s.queue.head now in
    if s.queue.head == null then (null, s) else (p, take_turn s' p)

-- the second part of `task_scheduler_yield`, with the task that `task_scheduler_next` has returned
unfoldable pub switch_context : TaskSystem → Ptr → ℕ → Option (Ptr × Ptr) × TaskSystem
switch_context s next now =
    let old = s.current_task in
    let resumed = record (deref s next) { state = running; last_run_time = now } in
    if next == null || next == old
    then (none, s)
    else (some (old, next), put (record s { current_task = next }) next resumed)

-- What the call leaves, with the two tasks whose contexts it switches, if it does. `rdtsc` reads
-- `now` in `task_scheduler_next` and then `now'`.
unfoldable pub task_scheduler_yield : TaskSystem → ℕ → ℕ → Option (Ptr × Ptr) × TaskSystem
task_scheduler_yield s now now' =
    let current = s.current_task in
    let saved = put s current (record (deref s current) { state = waiting_event }) in
    let (next, s') = task_scheduler_next saved now in
    if current == null then (none, s) else switch_context s' next now'
