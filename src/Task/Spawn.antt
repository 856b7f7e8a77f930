-- ===== src/Task/Spawn.antt =====
-- A task starts and ends: task.c, `task_spawn_with_args` and `task_kill`. What the allocators
-- return, the kernel's page table and the time stamp are a `Supply`; `task_init_context`, which is
-- assembly, is a parameter.
pub mod Admitted
pub mod Spawned
pub mod Killed
use box_kernel.Base.{
  ℕ, ◌+◌, ◌-◌, ◌%◌, ◌^◌, Bool, true, false, Option, none, some, List, [], ◌∷◌, ◌++◌, length,
  replicate, ltb, ◌==◌, if◌then◌else◌, update,
}
use box_kernel.Task.{
  Ptr, null, Task, TaskHealth, TaskContext, TaskQueue, TaskState, running, dead, TaskSystem,
}
use box_kernel.Task.Table.{task_table_insert, task_table_remove, task_get}
use box_kernel.Task.Queue.{scheduler_enqueue, scheduler_dequeue}

-- 0 is a failure
pub record Supply : Type 0 where
  pub block : Ptr
  pub stack : Ptr
  pub messages : Ptr
  pub pml4_phys : ℕ
  pub now : ℕ

abbrev pub task_stack_size : ℕ
task_stack_size = 16384

-- `strncpy` to the cleared field and the terminator after it. A name of 31 bytes or more has no
-- result: the second loop of `strncpy` then counts down from SIZE_MAX, and writes 0 over all
-- memory.
unfoldable pub task_name : List ℕ → Option (List ℕ)
task_name name =
    if ltb (length name) 31 then some (name ++ replicate (32 - length name) 0) else none

abbrev pub zero_task : Task
zero_task = record {
  task_id = 0;
  name = replicate 32 0;
  parent_id = 0;
  group_id = 0;
  energy_requested = 0;
  energy_allocated = 0;
  energy_efficiency = 0;
  state = running;
  health = record {
    responsiveness = 0;
    efficiency = 0;
    stability = 0;
    progress = 0;
    overall_health = 0;
  };
  creation_time = 0;
  last_run_time = 0;
  total_runtime = 0;
  sleep_until = 0;
  page_table = 0;
  stack_base = null;
  stack_size = 0;
  entry_point = null;
  args = null;
  context = record { registers = replicate 24 0; fpu_state = null };
  events_processed = 0;
  errors_count = 0;
  io_operations = 0;
  last_progress_time = 0;
  message_queue = null;
  pending_messages = 0;
  next = null;
  prev = null;
}

-- the fields that are written before the stack is allocated
abbrev pub named_task : ℕ → List ℕ → ℕ → ℕ → ℕ → Task
named_task id text parent energy now = record zero_task {
  task_id = id;
  name = text;
  parent_id = parent;
  energy_requested = energy;
  energy_allocated = energy;
  energy_efficiency = 50;
  state = running;
  health = record {
    responsiveness = 100;
    efficiency = 50;
    stability = 100;
    progress = 100;
    overall_health = 87;
  };
  creation_time = now;
  last_run_time = now;
}

abbrev pub kfree : TaskSystem → Ptr → TaskSystem
kfree s p = record s { blocks = update s.blocks p false }

abbrev pub vfree : TaskSystem → Ptr → TaskSystem
vfree s p = record s { stacks = update s.stacks p false }

-- a task is written to memory
abbrev pub put : TaskSystem → Ptr → Task → TaskSystem
put s p task = record s { queue = record s.queue { tasks = update s.queue.tasks p task } }

-- `current_task ? current_task->task_id : 0`, where the new block has its id already
abbrev pub parent_of : TaskSystem → Ptr → ℕ → ℕ
parent_of s block id =
    if s.current_task == null
    then 0
    else (update s.queue.tasks block (record zero_task { task_id = id }) s.current_task).task_id

-- the allocators have given out the stack and the message queue
abbrev pub supplied : TaskSystem → Supply → TaskSystem
supplied s supply = record s {
  stacks = update s.stacks supply.stack true;
  blocks = update s.blocks supply.messages true;
}

-- the rest of the call after the task is stored and `task_table_insert` has returned
abbrev pub settle : TaskSystem → Ptr → Ptr → Option ℕ × (ℕ → Ptr) → Ptr × TaskSystem
settle s block stack (none, table) = (null, kfree (vfree s stack) block)
settle s block stack (some slot, table) = (
  block,
  record s {
    queue = scheduler_enqueue s.queue block;
    task_table = table;
    tasks_created = (s.tasks_created + 1) % 2 ^ 64;
  },
)

-- The task has its stack and its message queue: the table, the scheduler and the counter.
unfoldable pub admit_task : TaskSystem → Ptr → Task → Ptr × TaskSystem
admit_task s block task =
    settle (put s block task) block task.stack_base (task_table_insert s.task_table block)

module _ (task_init_context : TaskContext → Ptr → Ptr → Ptr → TaskContext) where
  -- the fields that are written once there is a stack
  abbrev pub placed_task : Task → Supply → Ptr → Ptr → Task
  placed_task task supply entry_point args = record task {
    stack_base = supply.stack;
    stack_size = task_stack_size;
    entry_point = entry_point;
    args = args;
    page_table = supply.pml4_phys;
    context =
        task_init_context task.context entry_point ((supply.stack + task_stack_size - 16) % 2 ^ 64)
          args;
    last_progress_time = task.creation_time;
    message_queue = supply.messages;
  }

  -- from the allocation of the stack on
  unfoldable pub equip_task : TaskSystem → Ptr → Task → Supply → Ptr → Ptr → Ptr × TaskSystem
  equip_task s block task supply entry_point args =
      let placed = placed_task task supply entry_point args in
      let with_stack = record s { stacks = update s.stacks supply.stack true } in
      if supply.stack == null
      then (null, kfree (put s block task) block)
      else (if supply.messages == null
          then (null, kfree (vfree (put with_stack block placed) supply.stack) block)
          else admit_task (supplied s supply) block placed)

  -- The pointer that is returned, and what the call leaves.
  unfoldable pub task_spawn_with_args :
      TaskSystem → List ℕ → Ptr → Ptr → ℕ → Supply → Option (Ptr × TaskSystem)
  task_spawn_with_args s name entry_point args energy supply =
      let block = supply.block in
      let id = (s.next_task_id + 1) % 2 ^ 64 in
      let claimed = record s { blocks = update s.blocks block true; next_task_id = id } in
      if block == null then some (null, s) else elim (task_name name) [
        | none ↦ none
        | some text ↦
            let task = named_task id text (parent_of s block id) energy supply.now in
            some (equip_task claimed block task supply entry_point args)
      ]

  unfoldable pub task_spawn : TaskSystem → List ℕ → Ptr → ℕ → Supply → Option (Ptr × TaskSystem)
  task_spawn s name entry_point energy supply =
      task_spawn_with_args s name entry_point null energy supply

-- `if (p) free(p)` for each of what a task owns
abbrev pub free_owned : TaskSystem → Task → TaskSystem
free_owned s task =
    let fpu = task.context.fpu_state in
    let blocks = if fpu == null then s.blocks else update s.blocks fpu false in
    record s {
      stacks = if task.stack_base == null then s.stacks else update s.stacks task.stack_base false;
      blocks =
          if task.message_queue == null then blocks else update blocks task.message_queue false;
    }

-- whether the call returned 0, and what it leaves
unfoldable pub task_kill : TaskSystem → ℕ → Bool × TaskSystem
task_kill s task_id =
    let p = task_get s task_id in
    let q = scheduler_dequeue s.queue p in
    let task = record (q.tasks p) { state = dead } in
    let freed = free_owned (put (record s { queue = q }) p task) task in
    let table = task_table_remove freed.queue.tasks freed.task_table task_id in
    let gone = kfree (record freed { task_table = table }) p in
    if p == null
    then (false, s)
    else (true, record gone { tasks_destroyed = (gone.tasks_destroyed + 1) % 2 ^ 64 })
