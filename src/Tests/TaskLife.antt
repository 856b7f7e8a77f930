-- ===== src/Tests/TaskLife.antt =====
-- Runs of the task system: spawning, killing, health and groups.
use mathlib.Core.Path.{subst}
use box_kernel.Base.{
  ℕ, ◌≡◌, ◌≢◌, refl, sym, true, not, ◌&&◌, ◌||◌, some, [], ◌∷◌, ◌==◌, if-both, IsFirst, arith,
}
use box_kernel.Task.{Ptr, null, max_tasks, TaskContext, running, TaskSystem}
use box_kernel.Task.Table.{task_get}
use box_kernel.Task.Queue.Links.{Holds}
use box_kernel.Task.Control.{deref}
use box_kernel.Task.Spawn.{Supply, task_spawn_with_args, task_kill}
use box_kernel.Task.Spawn.Admitted.{IsNew}
use box_kernel.Task.Spawn.Spawned.{CanSpawn, task_spawn_with_args_lem}
use box_kernel.Task.Spawn.Killed.{HeldOnce, own_stack, own_block, task_kill_lem}
use box_kernel.Task.Health.{health_after, updated, task_scheduler_tick}
use box_kernel.Task.Health.Metrics.{IsHealth, health_after-IsHealth}
use box_kernel.Task.Health.Tick.{AllLively, IsLively, task_scheduler_tick-returns}
use box_kernel.Task.Health.Stalled.{IsStale, IsFailing}
use box_kernel.Task.Group.{task_group_add, task_group_remove}
use box_kernel.Task.Group.Members.{members}
use box_kernel.Task.Group.Membership.{IsGroupAt, task_group_remove-task_group_add}
use box_kernel.Tests.Tasks.{task_at, pair, pair-Holds, get_one, found_one, one_first}

-- registers as they were
abbrev as_is : TaskContext → Ptr → Ptr → Ptr → TaskContext
as_is context entry_point stack_top args = context

abbrev supply : Supply
supply = record { block = 30; stack = 4096; messages = 40; pml4_phys = 0x1000; now = 77 }

can_spawn : CanSpawn (65 ∷ 66 ∷ []) supply
can_spawn = record {
  block = omega arith;
  stack = omega arith;
  messages = omega arith;
  short = omega arith;
}

third_free : IsFirst (λ i. pair.task_table i == null) 0 max_tasks 2
third_free = record {
  passes = refl;
  from = omega arith;
  below = omega arith;
  before = λ j l h. ground (arith, h);
}

thirty-IsNew : IsNew pair 30 3
thirty-IsNew = record { address = λ i h. ground arith; id_lem = λ i h nz. ground arith }

task_spawn_with_args_lem_example :
    (s' : TaskSystem) × (task_spawn_with_args as_is pair (65 ∷ 66 ∷ []) 500 0 60 supply
      ≡ some (30, s'))
    × (task_get s' 3 ≡ 30)
    × ((id : ℕ) → id ≢ 3 → task_get s' id ≡ task_get pair id)
    × Holds s'.queue (10 ∷ 20 ∷ 30 ∷ [])
    × ((s'.queue.tasks 30).state ≡ running)
    × ((s'.queue.tasks 30).energy_allocated ≡ 60)
task_spawn_with_args_lem_example =
    task_spawn_with_args_lem as_is pair (65 ∷ 66 ∷ []) 500 0 60 supply 2 (10 ∷ 20 ∷ []) can_spawn
      third_free thirty-IsNew pair-Holds refl

one_once : HeldOnce pair 1
one_once i j hi hj here there = ground (arith, here, there)

task_kill_lem_example :
    let r = task_kill pair 1 in
    (r.0 ≡ true)
    × (task_get r.1 1 ≡ null)
    × ((other : ℕ) → other ≢ 1 → task_get r.1 other ≡ task_get pair other)
    × Holds r.1.queue (20 ∷ [])
    × ((a : ℕ) → r.1.stacks a ≡ (pair.stacks a && not (own_stack (deref pair (task_get pair 1)) a)))
    × ((a : ℕ)
        → r.1.blocks a ≡ (
            pair.blocks a
            && not ((a == task_get pair 1) || own_block (deref pair (task_get pair 1)) a)))
task_kill_lem_example = task_kill_lem pair 1 [] (20 ∷ []) found_one one_once one_first

health_after-IsHealth_example : IsHealth (health_after (task_at 1 0 0) 900000000)
health_after-IsHealth_example =
    health_after-IsHealth (task_at 1 0 0) 900000000 (omega arith) (omega arith) (omega arith)

pair_lively : AllLively pair (λ i. (1000, 2000))
pair_lively i j nz =
    let lively : (id after before : ℕ) → IsLively (1000, 2000) (task_at id after before) =
      λ id after before. record { awake = refl; soon = omega arith; soon' = omega arith } in
    if-both (IsLively (1000, 2000)) (pair.task_table i == 10) (lively 1 20 null) (lively 2 null 10)

task_scheduler_tick-returns_example :
    (s' : TaskSystem) × (task_scheduler_tick pair (λ i. (1000, 2000)) ≡ some s')
task_scheduler_tick-returns_example =
    task_scheduler_tick-returns pair (λ i. (1000, 2000)) pair_lively

one-IsFailing : IsFailing 900000001 (updated (deref pair 10) 900000000)
unfolding updated health_after
one-IsFailing = record { stale = omega arith; unresponsive = omega arith; low = omega arith }

one-IsStale : IsStale 900000000 (deref pair (task_get pair 1))
one-IsStale = subst (λ p. IsStale 900000000 (deref pair p)) (sym get_one) (omega arith)

three-IsGroupAt : IsGroupAt pair 6 3
three-IsGroupAt = record { below = omega arith; at_slot = refl; alone = λ j h e. ground (arith, e) }

task_group_remove-task_group_add_example :
    let r = task_group_remove (task_group_add pair 6 1).1 6 1 in
    (r.0 ≡ true) × (members (r.1.task_groups 3) ≡ []) × ((deref r.1 (task_get pair 1)).group_id ≡ 6)
task_group_remove-task_group_add_example =
    task_group_remove-task_group_add pair 6 1 3 three-IsGroupAt (omega arith) found_one refl
