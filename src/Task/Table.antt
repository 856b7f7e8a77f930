-- ===== src/Task/Table.antt =====
-- The table of tasks: task.c, `task_table_insert`, `task_table_remove`, `task_get` and the queries.
-- A loop over the table that stops is the search for the first slot of which its test holds.
pub mod Lookup
use box_kernel.Base.{
  ℕ, zero, suc, ◌+◌, ◌-◌, Bool, true, false, not, ◌&&◌, Option, none, some, List, [], ◌∷◌, ◌==◌,
  if◌then◌else◌, update, first_from,
}
use box_kernel.Task.{Ptr, null, max_tasks, Task, TaskState, dead, TaskSystem}

-- whether the slot holds the task of an id
abbrev pub holds : (Ptr → Task) → ℕ → Ptr → Bool
holds tasks id p = not (p == null) && ((tasks p).task_id == id)

-- `none` is -1
unfoldable pub task_table_insert : (ℕ → Ptr) → Ptr → Option ℕ × (ℕ → Ptr)
task_table_insert table task = elim (first_from (λ i. table i == null) 0 max_tasks) [
  | none ↦ (none, table)
  | some i ↦ (some i, update table i task)
]

unfoldable pub task_table_remove : (Ptr → Task) → (ℕ → Ptr) → ℕ → ℕ → Ptr
task_table_remove tasks table task_id =
    elim (first_from (λ i. holds tasks task_id (table i)) 0 max_tasks) [
      | none ↦ table
      | some i ↦ update table i null
    ]

unfoldable pub task_get : TaskSystem → ℕ → Ptr
task_get s task_id =
    elim (first_from (λ i. holds s.queue.tasks task_id (s.task_table i)) 0 max_tasks) [
      | none ↦ null
      | some i ↦ s.task_table i
    ]

unfoldable pub task_get_current : TaskSystem → Ptr
task_get_current s = s.current_task

unfoldable pub task_get_current_id : TaskSystem → ℕ
task_get_current_id s = if s.current_task == null then 0 else (s.queue.tasks s.current_task).task_id

unfoldable pub task_get_state : TaskSystem → ℕ → TaskState
task_get_state s task_id =
    let task = task_get s task_id in if task == null then dead else (s.queue.tasks task).state

-- the loop over the `n` slots from `i` on, with room for `room` more
unfoldable pub collect_tasks : (ℕ → Ptr) → ℕ → ℕ → ℕ → List Ptr
collect_tasks table i zero room = []
collect_tasks table i (suc n) zero = []
collect_tasks table i (suc n) (suc room) = elim (table i == null) [
  | true ↦ collect_tasks table (i + 1) n (suc room)
  | false ↦ table i ∷ collect_tasks table (i + 1) n room
]

-- The pointers written to `tasks_out`, which is not NULL; the call returns their number.
unfoldable pub task_enumerate : TaskSystem → ℕ → List Ptr
task_enumerate s max = if max == 0 then [] else collect_tasks s.task_table 0 max_tasks max
