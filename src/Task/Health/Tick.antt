-- ===== src/Task/Health/Tick.antt =====
-- When the timer's handler returns: task.c, `task_scheduler_tick`.
use mathlib.Core.Path.{subst}
use box_kernel.Base.{
  ℕ, zero, suc, ◌+◌, ◌<◌, ◌≡◌, ◌≢◌, refl, sym, ◌∙◌, ap, inl, inr, Bool, true, false, ◌&&◌, Option,
  none, some, ltb, lt→ltb, ◌==◌, ==→ne, ne→==, Bool-cases, arith,
}
use box_kernel.Task.{Ptr, null, max_tasks, Task, TaskSystem}
use box_kernel.Task.Queue.Fields.{update-field}
use box_kernel.Task.Spawn.{put}
use box_kernel.Task.Control.{deref}
use box_kernel.Task.Health.{
  elapsed, updated, task_update_health, is_stalled, needs_boost, task_auto_recover, tick_slot,
  tick_slots, task_scheduler_tick,
}

-- the task is not stalled, and has made progress lately at both readings of the clock
pub record IsLively (clock : ℕ × ℕ) (task : Task) : Type 0 where
  pub awake : is_stalled task.state ≡ false
  pub soon : elapsed clock.0 task.last_progress_time < 500000000
  pub soon' : elapsed clock.1 task.last_progress_time < 500000000

-- nothing that `IsLively` reads has changed, nor the table
record Same (s s' : TaskSystem) : Type 0 where
  table : (i : ℕ) → s'.task_table i ≡ s.task_table i
  state : (p : Ptr) → (deref s' p).state ≡ (deref s p).state
  progress : (p : Ptr) → (deref s' p).last_progress_time ≡ (deref s p).last_progress_time

updated-state :
    (task : Task) (now : ℕ)
    → elapsed now task.last_progress_time < 500000000
    → (updated task now).state ≡ task.state
unfolding updated
updated-state task now soon = rw (lt→ltb (elapsed now task.last_progress_time) 500000000 soon) refl

updated-progress :
    (task : Task) (now : ℕ) → (updated task now).last_progress_time ≡ task.last_progress_time
unfolding updated
updated-progress task now = refl

pub task_update_health-some :
    (s : TaskSystem) (p : Ptr) (now : ℕ)
    → p ≢ null
    → task_update_health s p now ≡ put s p (updated (deref s p) now)
unfolding task_update_health
task_update_health-some s p now nz = rw (ne→== p null nz) refl

task_update_health-Same :
    (s : TaskSystem) (p : Ptr) (now : ℕ)
    → p ≢ null
    → elapsed now (deref s p).last_progress_time < 500000000
    → Same s (task_update_health s p now)
task_update_health-Same s p now nz soon =
    let t = updated (deref s p) now in
    rw (task_update_health-some s p now nz) (record {
      table = λ i. refl;
      state =
          λ z. update-field (λ t. t.state) s.queue.tasks p t z (updated-state (deref s p) now soon);
      progress = λ z.
          update-field (λ t. t.last_progress_time) s.queue.tasks p t z
            (updated-progress (deref s p) now);
    })

task_auto_recover-awake :
    (s : TaskSystem) (p : Ptr) (now : ℕ)
    → p ≢ null
    → let s' = task_update_health s p now in
      is_stalled (deref s' p).state ≡ false
      → (ok : Bool) × (task_auto_recover true s p now ≡ some (ok, s'))
unfolding task_auto_recover
task_auto_recover-awake s p now nz awake =
    let s' = task_update_health s p now in
    let task = deref s' p in
    let spared : needs_boost task ≡ false = ground (arith, awake) in
    elim (Bool-cases (ltb task.health.overall_health 30 && ltb task.health.stability 30)) [
      | inl low ↦ (false, rw (ne→== p null nz) (rw spared (rw low refl)))
      | inr fine ↦ (true, rw (ne→== p null nz) (rw spared (rw fine refl)))
    ]

-- what a slot that returns leaves
Returns : TaskSystem → Option TaskSystem → Type 0
Returns s o = (s' : TaskSystem) × (o ≡ some s') × Same s s'

tick_slot-Returns :
    (s : TaskSystem) (i : ℕ) (clock : ℕ × ℕ)
    → (s.task_table i ≢ null → IsLively clock (deref s (s.task_table i)))
    → Returns s (tick_slot s i clock)
unfolding tick_slot Returns
tick_slot-Returns s i (t, t') lively = elim (Bool-cases (s.task_table i == null)) [
  | inl empty ↦
      (s, rw empty refl, record { table = λ j. refl; state = λ p. refl; progress = λ p. refl })
  | inr full ↦
      let p = s.task_table i in
      let nz : p ≢ null = ==→ne p null full in
      let l = lively nz in
      let s1 = task_update_health s p t in
      let same = task_update_health-Same s p t nz l.soon in
      let soon' = subst (λ x. elapsed t' x < 500000000) (sym (same.progress p)) l.soon' in
      let same' = task_update_health-Same s1 p t' nz soon' in
      let (ok, e) =
        task_auto_recover-awake s1 p t' nz
          (ap is_stalled (same'.state p ∙ same.state p) ∙ l.awake) in
      (
        task_update_health s1 p t',
        rw full (rw e refl),
        record {
          table = λ j. same'.table j ∙ same.table j;
          state = λ z. same'.state z ∙ same.state z;
          progress = λ z. same'.progress z ∙ same.progress z;
        },
      )
]

-- every task of the `n` slots from `i` on is lively
abbrev pub AllLively : TaskSystem → (ℕ → ℕ × ℕ) → Type 0
AllLively s clock =
    (i j : ℕ) → s.task_table i ≢ null → IsLively (clock j) (deref s (s.task_table i))

AllLively-Same :
    (s s' : TaskSystem) (clock : ℕ → ℕ × ℕ) → Same s s' → AllLively s clock → AllLively s' clock
AllLively-Same s s' clock same lively i j nz =
    let l = lively i j (λ e. nz (same.table i ∙ e)) in
    let p = s.task_table i in
    let moved : IsLively (clock j) (deref s' p) = record {
      awake = ap is_stalled (same.state p) ∙ l.awake;
      soon = subst (λ x. elapsed (clock j).0 x < 500000000) (sym (same.progress p)) l.soon;
      soon' = subst (λ x. elapsed (clock j).1 x < 500000000) (sym (same.progress p)) l.soon';
    } in
    subst (λ p. IsLively (clock j) (deref s' p)) (sym (same.table i)) moved

tick_slots-returns :
    (s : TaskSystem) (clock : ℕ → ℕ × ℕ) (i n : ℕ)
    → AllLively s clock
    → (s' : TaskSystem) × (tick_slots s clock i n ≡ some s')
unfolding tick_slots Returns
tick_slots-returns s clock i zero lively = (s, refl)
tick_slots-returns s clock i (suc n) lively =
    let (s1, e, same) = tick_slot-Returns s i (clock i) (λ nz. lively i i nz) in
    let (s2, rest) =
      tick_slots-returns s1 clock (i + 1) n (AllLively-Same s s1 clock same lively) in
    (
      s2,
      ap
            (λ (o : Option TaskSystem). elim o [
              | none ↦ none
              | some s' ↦ tick_slots s' clock (i + 1) n
            ])
            e
          ∙ rest,
    )

-- The handler returns where no task of the table is stalled and each has made progress within
-- 500000000 cycles of every reading of the clock.
pub task_scheduler_tick-returns :
    (s : TaskSystem) (clock : ℕ → ℕ × ℕ)
    → AllLively s clock
    → (s' : TaskSystem) × (task_scheduler_tick s clock ≡ some s')
unfolding task_scheduler_tick
task_scheduler_tick-returns s clock lively = tick_slots-returns s clock 0 max_tasks lively
