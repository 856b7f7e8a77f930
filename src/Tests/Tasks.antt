-- ===== src/Tests/Tasks.antt =====
-- Runs of the task system on two tasks, at the addresses 10 and 20 with the ids 1 and 2.
use mathlib.Core.Path.{subst}
use box_kernel.Base.{ℕ, ◌≡◌, ◌≢◌, refl, sym, true, [], ◌∷◌, ◌==◌, if◌then◌else◌, arith}
use box_kernel.Task.{Ptr, null, Task, running, zero_group, TaskSystem}
use box_kernel.Task.Table.{task_get}
use box_kernel.Task.Table.Lookup.{task_get-first}
use box_kernel.Task.Queue.{scheduler_dequeue}
use box_kernel.Task.Queue.Links.{Holds}
use box_kernel.Task.Queue.Dequeue.{scheduler_dequeue-Holds}
use box_kernel.Task.Schedule.Rotate.{turns, turns-Holds}
use box_kernel.Task.Control.{deref, task_sleep, task_wake}
use box_kernel.Task.Control.Sleep.{task_wake-task_sleep}
use box_kernel.Task.Spawn.{zero_task}

abbrev pub task_at : ℕ → Ptr → Ptr → Task
task_at id after before = record zero_task {
  task_id = id;
  next = after;
  prev = before;
  message_queue = 7;
  stack_base = 8;
}

abbrev pub pair : TaskSystem
pair = record {
  queue = record {
    tasks = λ p. if p == 10 then task_at 1 20 null else task_at 2 null 10;
    head = 10;
    tail = 20;
  };
  task_table = λ i. if i == 0 then 10 else (if i == 1 then 20 else null);
  task_groups = λ i. if i == 3 then record zero_group { group_id = 6 } else zero_group;
  current_task = 20;
  next_task_id = 2;
  next_group_id = 6;
  tasks_created = 2;
  tasks_destroyed = 0;
  context_switches = 0;
  blocks = λ p. (p == 10);
  stacks = λ p. (p == 8);
}

pub pair-Holds : Holds pair.queue (10 ∷ 20 ∷ [])
pair-Holds = record {
  links = (omega arith, refl, refl, refl, (omega arith, refl, refl, refl, tt));
  head_lem = refl;
  tail_lem = refl;
}

pub get_one : task_get pair 1 ≡ 10
get_one = task_get-first pair 1 0 (record {
  passes = refl;
  from = omega arith;
  below = omega arith;
  before = λ j l h. absurd (omega arith);
})

pub found_one : task_get pair 1 ≢ null
found_one e = ground (arith, get_one, e)

pub one_first : Holds pair.queue (task_get pair 1 ∷ 20 ∷ [])
one_first = subst (λ p. Holds pair.queue (p ∷ 20 ∷ [])) (sym get_one) pair-Holds

-- the second task alone
abbrev pub alone : TaskSystem
alone = record pair { queue = record { tasks = λ p. task_at 2 null null; head = 20; tail = 20 } }

pub alone-Holds : Holds alone.queue (20 ∷ [])
alone-Holds = record {
  links = (omega arith, refl, refl, refl, tt);
  head_lem = refl;
  tail_lem = refl;
}

scheduler_dequeue-Holds_example : Holds (scheduler_dequeue pair.queue 10) (20 ∷ [])
scheduler_dequeue-Holds_example = scheduler_dequeue-Holds pair.queue [] 10 (20 ∷ []) pair-Holds

all_running : (p : Ptr) → (deref pair p).state ≡ running
all_running p = ground arith

turns-Holds_example :
    ((turns pair (5 ∷ [])).0 ≡ 10 ∷ []) × Holds (turns pair (5 ∷ [])).1.queue (20 ∷ 10 ∷ [])
turns-Holds_example =
    turns-Holds pair (5 ∷ []) (10 ∷ []) (20 ∷ []) refl (omega arith) pair-Holds
      (λ p h. all_running p)

task_wake-task_sleep_example :
    let r = task_wake (task_sleep pair 1 5 1000).1 1 in
    (r.0 ≡ true)
    × Holds r.1.queue (20 ∷ task_get pair 1 ∷ [])
    × ((deref r.1 (task_get pair 1)).state ≡ running)
task_wake-task_sleep_example = task_wake-task_sleep pair 1 5 1000 [] (20 ∷ []) found_one one_first
