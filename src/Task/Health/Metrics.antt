-- ===== src/Task/Health/Metrics.antt =====
-- Bounds of a task's health: task.c, `task_update_health`.
use box_kernel.Base.{ℕ, ◌+◌, ◌*◌, ◌/◌, ◌%◌, ◌^◌, ◌≤◌, ◌≡◌, ltb, if-both, arith}
use box_kernel.Task.{Task, TaskHealth}
use box_kernel.Task.Health.{
  elapsed, responsiveness_after, efficiency_after, stability_after, progress_after, health_after,
}

abbrev pub Between : ℕ → ℕ → ℕ → Type 0
Between a b x = (a ≤ x) × (x ≤ b)

responsiveness-Between : (t : ℕ) → Between 30 100 (responsiveness_after t)
responsiveness-Between t =
    if-both (Between 30 100) (ltb t 10000000) (omega arith)
      (if-both (Between 30 100) (ltb t 100000000) (omega arith) (omega arith))

progress-Between : (t : ℕ) → Between 10 100 (progress_after t)
progress-Between t =
    if-both (Between 10 100) (ltb t 50000000) (omega arith)
      (if-both (Between 10 100) (ltb t 500000000) (omega arith) (omega arith))

efficiency-Between :
    (task : Task)
    → task.energy_efficiency ≤ 100
    → task.health.efficiency ≤ 100
    → Between 0 100 (efficiency_after task)
efficiency-Between task energy old =
    if-both (Between 0 100) (ltb 0 task.events_processed) (omega arith) (omega arith)

stability-Between :
    (task : Task) → task.health.stability ≤ 100 → Between 0 100 (stability_after task)
stability-Between task old =
    let error_rate = task.errors_count * 100 % 2 ^ 64 / task.events_processed in
    if-both (Between 0 100) (ltb 0 task.events_processed)
      (if-both (Between 0 100) (ltb error_rate 100) (omega arith) (omega arith)) (omega arith)

-- The metrics that `TaskHealth` declares as 0 to 100, with the mean of four of them as the last.
pub record IsHealth (h : TaskHealth) : Type 0 where
  pub responsiveness : Between 30 100 h.responsiveness
  pub efficiency : Between 0 100 h.efficiency
  pub stability : Between 0 100 h.stability
  pub progress : Between 10 100 h.progress
  pub overall_health : Between 10 100 h.overall_health
  pub mean : h.overall_health ≡ (h.responsiveness + h.efficiency + h.stability + h.progress) / 4

overall-Between :
    (r e s p : ℕ)
    → Between 30 100 r
    → Between 0 100 e
    → Between 0 100 s
    → Between 10 100 p
    → Between 10 100 ((r + e + s + p) / 4 % 2 ^ 8)
overall-Between r e s p hr he hs hp = omega arith

mean_lem :
    (r e s p : ℕ)
    → Between 30 100 r
    → Between 0 100 e
    → Between 0 100 s
    → Between 10 100 p
    → (r + e + s + p) / 4 % 2 ^ 8 ≡ (r + e + s + p) / 4
mean_lem r e s p hr he hs hp = omega arith

-- Where the two inputs and the stability before are within 0 to 100, all metrics are after an
-- update, whatever the clock reads: the responsiveness is 30 at least, the progress and the overall
-- health 10 at least. The overall health is the whole mean of the four others, with no part of it
-- lost to the width of a byte.
pub health_after-IsHealth :
    (task : Task) (now : ℕ)
    → task.energy_efficiency ≤ 100
    → task.health.efficiency ≤ 100
    → task.health.stability ≤ 100
    → IsHealth (health_after task now)
unfolding health_after
health_after-IsHealth task now energy old_efficiency old_stability =
    let r = responsiveness-Between (elapsed now task.last_run_time) in
    let e = efficiency-Between task energy old_efficiency in
    let s = stability-Between task old_stability in
    let p = progress-Between (elapsed now task.last_progress_time) in
    record {
      responsiveness = r;
      efficiency = e;
      stability = s;
      progress = p;
      overall_health = overall-Between _ _ _ _ r e s p;
      mean = mean_lem _ _ _ _ r e s p;
    }
