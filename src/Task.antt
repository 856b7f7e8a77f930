-- ===== src/Task.antt =====
-- The task system: src/kernel/eventdriven/task/task.h and task.c. Tasks lie in memory and point to
-- one another: `tasks` is what stands at each address, and address 0 is NULL. A task that has been
-- freed keeps its bytes; `blocks` and `stacks` say which addresses the heap and the stack allocator
-- have given out and not got back. The locks are left out: a call is one step.
pub mod Table
pub mod Queue
pub mod Spawn
pub mod Control
pub mod Health
pub mod Schedule
pub mod Group
use box_kernel.Base.{ℕ, ◌+◌, Bool, true, false, List, [], ◌∷◌, replicate}

abbrev pub Ptr : Type 0
Ptr = ℕ

abbrev pub null : Ptr
null = 0

-- MAX_TASKS, MAX_TASK_GROUPS
abbrev pub max_tasks : ℕ
max_tasks = 1024

abbrev pub max_task_groups : ℕ
max_task_groups = 64

-- `TaskState`, without the prefix
pub data TaskState : Type 0 where
  running processing waiting_io waiting_event drowsy sleeping hibernating throttled stalled dead :
      TaskState

pub record TaskHealth : Type 0 where
  pub responsiveness : ℕ
  pub efficiency : ℕ
  pub stability : ℕ
  pub progress : ℕ
  pub overall_health : ℕ

-- The registers are the assembly code's; the task system reads the pointer to the state of the FPU.
pub record TaskContext : Type 0 where
  pub registers : List ℕ
  pub fpu_state : Ptr

-- `struct Task`. The list `name` is its 32 bytes.
pub record Task : Type 0 where
  pub task_id : ℕ
  pub name : List ℕ
  pub parent_id : ℕ
  pub group_id : ℕ
  pub energy_requested : ℕ
  pub energy_allocated : ℕ
  pub energy_efficiency : ℕ
  pub state : TaskState
  pub health : TaskHealth
  pub creation_time : ℕ
  pub last_run_time : ℕ
  pub total_runtime : ℕ
  pub sleep_until : ℕ
  pub page_table : ℕ
  pub stack_base : Ptr
  pub stack_size : ℕ
  pub entry_point : Ptr
  pub args : Ptr
  pub context : TaskContext
  pub events_processed : ℕ
  pub errors_count : ℕ
  pub io_operations : ℕ
  pub last_progress_time : ℕ
  pub message_queue : Ptr
  pub pending_messages : ℕ
  pub next : Ptr
  pub prev : Ptr

pub record TaskGroup : Type 0 where
  pub group_id : ℕ
  pub name : List ℕ
  pub task_count : ℕ
  pub task_ids : ℕ → ℕ
  pub memory_limit : ℕ
  pub memory_used : ℕ
  pub energy_limit : ℕ
  pub throttled : ℕ
  pub creation_time : ℕ

-- the scheduler's queue, with the memory that it lies in
pub record TaskQueue : Type 0 where
  pub tasks : Ptr → Task
  pub head : Ptr
  pub tail : Ptr

-- the globals of task.c
pub record TaskSystem : Type 0 where
  pub queue : TaskQueue
  pub task_table : ℕ → Ptr
  pub task_groups : ℕ → TaskGroup
  pub current_task : Ptr
  pub next_task_id : ℕ
  pub next_group_id : ℕ
  pub tasks_created : ℕ
  pub tasks_destroyed : ℕ
  pub context_switches : ℕ
  pub blocks : Ptr → Bool
  pub stacks : Ptr → Bool

-- `memset` of a group to 0
abbrev pub zero_group : TaskGroup
zero_group = record {
  group_id = 0;
  name = replicate 32 0;
  task_count = 0;
  task_ids = λ _. 0;
  memory_limit = 0;
  memory_used = 0;
  energy_limit = 0;
  throttled = 0;
  creation_time = 0;
}

-- The queue and the current task are not reset.
unfoldable pub task_system_init : TaskSystem → TaskSystem
task_system_init s = record s {
  task_table = λ _. null;
  task_groups = λ _. zero_group;
  next_task_id = 1;
  next_group_id = 1;
  tasks_created = 0;
  tasks_destroyed = 0;
  context_switches = 0;
}
