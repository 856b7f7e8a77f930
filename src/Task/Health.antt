-- ===== src/Task/Health.antt =====
-- Health of a task: task.c, `task_update_health`, `task_auto_recover` and `task_scheduler_tick`.
pub mod Metrics
pub mod Tick
pub mod Stalled
use box_kernel.Base.{
  ℕ, zero, suc, ◌+◌, ◌-◌, ◌*◌, ◌/◌, ◌%◌, ◌^◌, Bool, true, false, ◌&&◌, Option, none, some, ltb,
  ◌==◌, if◌then◌else◌,
}
use box_kernel.Task.{
  Ptr, null, max_tasks, Task, TaskHealth, TaskQueue, TaskState, running, stalled, TaskSystem,
}
use box_kernel.Task.Spawn.{put}
use box_kernel.Task.Control.{deref, task_boost}

-- `a - b` on 64 bits
abbrev pub elapsed : ℕ → ℕ → ℕ
elapsed now past = (now + 2 ^ 64 - past) % 2 ^ 64

abbrev pub responsiveness_after : ℕ → ℕ
responsiveness_after t = if ltb t 10000000 then 100 else (if ltb t 100000000 then 70 else 30)

abbrev pub efficiency_after : Task → ℕ
efficiency_after task =
    if ltb 0 task.events_processed
    then (task.energy_efficiency + task.health.efficiency) / 2 % 2 ^ 8
    else task.health.efficiency

abbrev pub stability_after : Task → ℕ
stability_after task =
    let error_rate = task.errors_count * 100 % 2 ^ 64 / task.events_processed in
    if ltb 0 task.events_processed
    then (if ltb error_rate 100 then 100 - error_rate else 0)
    else task.health.stability

abbrev pub progress_after : ℕ → ℕ
progress_after t = if ltb t 50000000 then 100 else (if ltb t 500000000 then 50 else 10)

abbrev pub state_after : TaskState → ℕ → TaskState
state_after state t = if ltb t 500000000 then state else stalled

unfoldable pub health_after : Task → ℕ → TaskHealth
health_after task now =
    let r = responsiveness_after (elapsed now task.last_run_time) in
    let e = efficiency_after task in
    let s = stability_after task in
    let p = progress_after (elapsed now task.last_progress_time) in
    record {
      responsiveness = r;
      efficiency = e;
      stability = s;
      progress = p;
      overall_health = (r + e + s + p) / 4 % 2 ^ 8;
    }

unfoldable pub updated : Task → ℕ → Task
updated task now = record task {
  health = health_after task now;
  state = state_after task.state (elapsed now task.last_progress_time);
}

unfoldable pub task_update_health : TaskSystem → Ptr → ℕ → TaskSystem
task_update_health s p now = if p == null then s else put s p (updated (deref s p) now)

abbrev pub is_stalled : TaskState → Bool
is_stalled stalled = true
is_stalled _ = false

-- whether the recovery takes its first strategy
abbrev pub needs_boost : Task → Bool
needs_boost task = ltb task.health.overall_health 30 && is_stalled task.state

abbrev pub boosted : TaskSystem → Ptr → TaskSystem
boosted s p =
    let s' = (task_boost s (deref s p).task_id 20).1 in
    put s' p (record (deref s' p) { state = running })

-- `locked` says that the caller holds the lock of the table. `task_boost` takes it: the call then
-- waits for ever, and has no result.
unfoldable pub task_auto_recover : Bool → TaskSystem → Ptr → ℕ → Option (Bool × TaskSystem)
task_auto_recover locked s p now =
    let s' = task_update_health s p now in
    let task = deref s' p in
    if p == null
    then some (false, s)
    else (if needs_boost task
        then (if locked then none else some (true, boosted s' p))
        else (if ltb task.health.overall_health 30 && ltb task.health.stability 30
            then some (false, s')
            else some (true, s')))

-- One slot of the table. `rdtsc` reads `(clock i).0` and then `(clock i).1`.
unfoldable pub tick_slot : TaskSystem → ℕ → ℕ × ℕ → Option TaskSystem
tick_slot s i (t, t') =
    let p = s.task_table i in
    if p == null then some s else elim (task_auto_recover true (task_update_health s p t) p t') [
      | none ↦ none
      | some (ok, s') ↦ some s'
    ]

-- the `n` slots from `i` on
unfoldable pub tick_slots : TaskSystem → (ℕ → ℕ × ℕ) → ℕ → ℕ → Option TaskSystem
tick_slots s clock i zero = some s
tick_slots s clock i (suc n) = elim (tick_slot s i (clock i)) [
  | none ↦ none
  | some s' ↦ tick_slots s' clock (i + 1) n
]

unfoldable pub task_scheduler_tick : TaskSystem → (ℕ → ℕ × ℕ) → Option TaskSystem
task_scheduler_tick s clock = tick_slots s clock 0 max_tasks
