-- ===== src/Task/Health/Stalled.antt =====
-- A task that makes no progress: task.c, `task_update_health`, `task_auto_recover` and
-- `task_scheduler_tick`.
use mathlib.Core.Path.{subst}
use box_kernel.Base.{
  ℕ, suc, ◌+◌, ◌/◌, ◌%◌, ◌^◌, ◌≤◌, ◌<◌, ◌≡◌, ◌≢◌, refl, sym, ◌∙◌, ap, inl, inr, true, false, Option,
  none, some, lt→ltb, le→ltb, ◌==◌, ne→==, Bool-cases, arith,
}
use box_kernel.Task.{Ptr, null, Task, stalled, TaskSystem}
use box_kernel.Task.Table.{task_get}
use box_kernel.Task.Queue.Fields.{dequeue-field}
use box_kernel.Task.Spawn.{put}
use box_kernel.Task.Control.{deref, dequeue, task_sleep, task_wake, can_wake}
use box_kernel.Task.Control.Sleep.{
  deref-put, task_get-put, task_get-dequeue, asleep, task_sleep-some,
}
use box_kernel.Task.Health.{
  elapsed, responsiveness_after, efficiency_after, stability_after, progress_after, health_after,
  updated, task_update_health, needs_boost, task_auto_recover, tick_slot, tick_slots,
  task_scheduler_tick,
}
use box_kernel.Task.Health.Tick.{task_update_health-some}

-- the task has made no progress for 500000000 cycles
abbrev pub IsStale : ℕ → Task → Type 0
IsStale now task = 500000000 ≤ elapsed now task.last_progress_time

updated-stalled : (task : Task) (now : ℕ) → IsStale now task → (updated task now).state ≡ stalled
unfolding updated
updated-stalled task now stale =
    rw (le→ltb (elapsed now task.last_progress_time) 500000000 stale) refl

updated-task_id : (task : Task) (now : ℕ) → (updated task now).task_id ≡ task.task_id
unfolding updated
updated-task_id task now = refl

task_wake-refused :
    (s : TaskSystem) (id : ℕ)
    → can_wake (deref s (task_get s id)).state ≡ false
    → task_wake s id ≡ (false, s)
unfolding task_wake
task_wake-refused s id cannot = elim (Bool-cases (task_get s id == null)) [
  | inl nothing ↦ rw nothing refl
  | inr some_task ↦ rw some_task (rw cannot refl)
]

-- A task sleeps, and the handler of the timer updates its health when it has made no progress for
-- 500000000 cycles: then it counts as stalled, and `task_wake` refuses it and changes nothing.
pub task_wake-stalled :
    (s : TaskSystem) (id milliseconds now later : ℕ)
    → task_get s id ≢ null
    → IsStale later (deref s (task_get s id))
    → let s' = task_update_health (task_sleep s id milliseconds now).1 (task_get s id) later in
      task_wake s' id ≡ (false, s')
task_wake-stalled s id milliseconds now later nz stale =
    let p = task_get s id in
    let t = asleep (deref s p) milliseconds now in
    let s1 = dequeue (put s p t) p in
    let u = updated (deref s1 p) later in
    let s2 = put s1 p u in
    let same : (deref s1 p).last_progress_time ≡ (deref s p).last_progress_time =
      dequeue-field (λ t. t.last_progress_time) (λ t n p. refl) (put s p t).queue p p
      ∙ ap (λ (t : Task). t.last_progress_time) (deref-put s p t) in
    let old : IsStale later (deref s1 p) = omega (arith, stale, same) in
    let get : task_get s2 id ≡ p =
      task_get-put s1 p u id (updated-task_id (deref s1 p) later)
      ∙ task_get-dequeue (put s p t) p id
      ∙ task_get-put s p t id refl in
    let state : (deref s2 (task_get s2 id)).state ≡ stalled =
      ap (λ p. (deref s2 p).state) get
      ∙ ap (λ (t : Task). t.state) (deref-put s1 p u)
      ∙ updated-stalled (deref s1 p) later old in
    rw (task_sleep-some s id milliseconds now nz)
      (rw (task_update_health-some s1 p later nz) (task_wake-refused s2 id (ap can_wake state)))

-- a stale task that has not run for 100000000 cycles either, with low efficiency and stability
pub record IsFailing (now : ℕ) (task : Task) : Type 0 where
  pub stale : IsStale now task
  pub unresponsive : 100000000 ≤ elapsed now task.last_run_time
  pub low : efficiency_after task + stability_after task < 80

overall-low :
    (task : Task) (now : ℕ) → IsFailing now task → (updated task now).health.overall_health < 30
unfolding updated health_after
overall-low task now f =
    let r = responsiveness-low (elapsed now task.last_run_time) f.unresponsive in
    let p = progress-low (elapsed now task.last_progress_time) f.stale in
    quarter-low (responsiveness_after (elapsed now task.last_run_time)) (efficiency_after task)
      (stability_after task) (progress_after (elapsed now task.last_progress_time)) r p f.low
  where
    responsiveness-low : (t : ℕ) → 100000000 ≤ t → responsiveness_after t ≡ 30
    responsiveness-low t h = ground (arith, h)

    progress-low : (t : ℕ) → 500000000 ≤ t → progress_after t ≡ 10
    progress-low t h = ground (arith, h)

    quarter-low : (r e s p : ℕ) → r ≡ 30 → p ≡ 10 → e + s < 80 → (r + e + s + p) / 4 % 2 ^ 8 < 30
    quarter-low r e s p hr hp h = omega arith

task_auto_recover-locked :
    (s : TaskSystem) (p : Ptr) (now : ℕ)
    → p ≢ null
    → IsFailing now (deref s p)
    → task_auto_recover true s p now ≡ none
unfolding task_auto_recover
task_auto_recover-locked s p now nz f =
    let u = updated (deref s p) now in
    let s' = task_update_health s p now in
    let here : deref s' p ≡ u =
      ap (λ s. deref s p) (task_update_health-some s p now nz) ∙ deref-put s p u in
    let needs : needs_boost (deref s' p) ≡ true =
      ap needs_boost here
      ∙ rw (lt→ltb u.health.overall_health 30 (overall-low (deref s p) now f))
          (rw (updated-stalled (deref s p) now f.stale) refl) in
    rw (ne→== p null nz) (rw needs refl)

tick_slot-locked :
    (s : TaskSystem) (i : ℕ) (clock : ℕ × ℕ)
    → s.task_table i ≢ null
    → IsFailing clock.1 (updated (deref s (s.task_table i)) clock.0)
    → tick_slot s i clock ≡ none
unfolding tick_slot
tick_slot-locked s i (t, t') nz f =
    let p = s.task_table i in
    let u = updated (deref s p) t in
    let s1 = task_update_health s p t in
    let here : deref s1 p ≡ u =
      ap (λ s. deref s p) (task_update_health-some s p t nz) ∙ deref-put s p u in
    let stuck = task_auto_recover-locked s1 p t' nz (subst (IsFailing t') (sym here) f) in
    rw (ne→== p null nz) (rw stuck refl)

tick_slots-none :
    (s : TaskSystem) (clock : ℕ → ℕ × ℕ) (i n : ℕ)
    → tick_slot s i (clock i) ≡ none
    → tick_slots s clock i (suc n) ≡ none
unfolding tick_slots
tick_slots-none s clock i n stuck =
    ap (λ (o : Option TaskSystem). elim o [ none ↦ none | some s' ↦ tick_slots s' clock (i + 1) n ])
      stuck

-- The handler of the timer does not return where the task in the first slot is failing: it holds
-- the lock of the table, and the recovery of the task waits for the same lock.
pub task_scheduler_tick-stuck :
    (s : TaskSystem) (clock : ℕ → ℕ × ℕ)
    → s.task_table 0 ≢ null
    → IsFailing (clock 0).1 (updated (deref s (s.task_table 0)) (clock 0).0)
    → task_scheduler_tick s clock ≡ none
unfolding task_scheduler_tick
task_scheduler_tick-stuck s clock nz f =
    tick_slots-none s clock 0 1023 (tick_slot-locked s 0 (clock 0) nz f)
