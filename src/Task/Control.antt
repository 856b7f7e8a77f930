-- ===== src/Task/Control.antt =====
-- Control of a task and of its energy: task.c, `task_sleep` to `task_set_energy`. Each returns
-- whether the call returned 0, and what it leaves. `now` is what `rdtsc` reads.
pub mod Sleep
pub mod Lost
use box_kernel.Base.{
  ℕ, ◌+◌, ◌-◌, ◌*◌, ◌%◌, ◌^◌, Bool, true, false, ltb, ◌==◌, if◌then◌else◌, update,
}
use box_kernel.Task.{
  Ptr, null, Task, TaskQueue, TaskState, running, drowsy, sleeping, hibernating, throttled,
  TaskSystem,
}
use box_kernel.Task.Table.{task_get}
use box_kernel.Task.Queue.{scheduler_enqueue, scheduler_dequeue}
use box_kernel.Task.Spawn.{put}

-- the task at an address
abbrev pub deref : TaskSystem → Ptr → Task
deref s p = s.queue.tasks p

abbrev pub enqueue : TaskSystem → Ptr → TaskSystem
enqueue s p = record s { queue = scheduler_enqueue s.queue p }

abbrev pub dequeue : TaskSystem → Ptr → TaskSystem
dequeue s p = record s { queue = scheduler_dequeue s.queue p }

unfoldable pub task_sleep : TaskSystem → ℕ → ℕ → ℕ → Bool × TaskSystem
task_sleep s task_id milliseconds now =
    let p = task_get s task_id in
    let cycles = milliseconds * 2400000 % 2 ^ 64 in
    let task = record (deref s p) { sleep_until = (now + cycles) % 2 ^ 64; state = sleeping } in
    if p == null then (false, s) else (true, dequeue (put s p task) p)

abbrev pub can_wake : TaskState → Bool
can_wake sleeping = true
can_wake hibernating = true
can_wake drowsy = true
can_wake _ = false

unfoldable pub task_wake : TaskSystem → ℕ → Bool × TaskSystem
task_wake s task_id =
    let p = task_get s task_id in
    let task = record (deref s p) { state = running; sleep_until = 0 } in
    if p == null
    then (false, s)
    else (if can_wake (deref s p).state then (true, enqueue (put s p task) p) else (false, s))

unfoldable pub task_pause : TaskSystem → ℕ → Bool × TaskSystem
task_pause s task_id =
    let p = task_get s task_id in
    let task = record (deref s p) { state = throttled } in
    if p == null then (false, s) else (true, dequeue (put s p task) p)

abbrev pub is_throttled : TaskState → Bool
is_throttled throttled = true
is_throttled _ = false

unfoldable pub task_resume : TaskSystem → ℕ → Bool × TaskSystem
task_resume s task_id =
    let p = task_get s task_id in
    let task = record (deref s p) { state = running } in
    if p == null
    then (false, s)
    else (if is_throttled (deref s p).state then (true, enqueue (put s p task) p) else (false, s))

-- the sum is an `int`
unfoldable pub task_boost : TaskSystem → ℕ → ℕ → Bool × TaskSystem
task_boost s task_id extra_energy =
    let p = task_get s task_id in
    let energy = (deref s p).energy_allocated + extra_energy in
    let task = record (deref s p) { energy_allocated = if ltb 100 energy then 100 else energy } in
    if p == null then (false, s) else (true, put s p task)

unfoldable pub task_throttle : TaskSystem → ℕ → ℕ → Bool × TaskSystem
task_throttle s task_id reduction =
    let p = task_get s task_id in
    let energy = (deref s p).energy_allocated in
    let task = record (deref s p) {
      energy_allocated = if ltb energy reduction then 0 else energy - reduction;
      state = throttled;
    } in
    if p == null then (false, s) else (true, put s p task)

unfoldable pub task_set_energy : TaskSystem → ℕ → ℕ → Bool × TaskSystem
task_set_energy s task_id energy =
    let p = task_get s task_id in
    let task = record (deref s p) { energy_requested = energy; energy_allocated = energy } in
    if p == null then (false, s) else (true, put s p task)
