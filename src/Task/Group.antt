-- ===== src/Task/Group.antt =====
-- Groups of tasks: task.c, `task_group_create` to `task_group_broadcast`. The booleans are the
-- return codes 0 and -1. A loop over `task_groups` is the search for the first slot of which its
-- test holds.
pub mod Members
pub mod Membership
use box_kernel.Base.{
  ℕ, zero, suc, ◌+◌, ◌-◌, ◌%◌, ◌^◌, Bool, true, false, ◌&&◌, Option, none, some, List, [], ◌∷◌,
  ◌++◌, length, replicate, drop, ltb, ◌==◌, if◌then◌else◌, update, first_from,
}
use box_kernel.Task.{Ptr, null, max_task_groups, Task, TaskQueue, TaskGroup, TaskSystem}
use box_kernel.Task.Table.{task_get}
use box_kernel.Task.Spawn.{put}
use box_kernel.Task.Control.{deref}

-- TASK_GROUP_MAX_TASKS
abbrev pub task_group_max_tasks : ℕ
task_group_max_tasks = 256

abbrev pub has_id : ℕ → TaskGroup → Bool
has_id group_id g = g.group_id == group_id

-- `strncpy` to the first 31 bytes of the field; a longer name has no result, as for a task
unfoldable pub group_name : List ℕ → List ℕ → Option (List ℕ)
group_name old name =
    if ltb (length name) 31
    then some (name ++ replicate (31 - length name) 0 ++ drop 31 old)
    else none

-- The id that is returned, and what the call leaves.
unfoldable pub task_group_create : TaskSystem → List ℕ → ℕ → Option (ℕ × TaskSystem)
task_group_create s name now =
    elim (first_from (λ i. has_id 0 (s.task_groups i)) 0 max_task_groups) [
      | none ↦ some (0, s)
      | some i ↦
          let id = (s.next_group_id + 1) % 2 ^ 64 in
          let g = s.task_groups i in
          elim (group_name g.name name) [
            | none ↦ none
            | some text ↦
                let g' = record g {
                  group_id = id;
                  name = text;
                  task_count = 0;
                  memory_limit = 0;
                  memory_used = 0;
                  energy_limit = 100;
                  throttled = 0;
                  creation_time = now;
                } in
                some (id, record s { task_groups = update s.task_groups i g'; next_group_id = id })
          ]
    ]

abbrev pub has_room : ℕ → TaskGroup → Bool
has_room group_id g = has_id group_id g && ltb g.task_count task_group_max_tasks

abbrev pub with_member : TaskGroup → ℕ → TaskGroup
with_member g task_id = record g {
  task_ids = update g.task_ids g.task_count task_id;
  task_count = g.task_count + 1;
}

-- the task joins the group in slot `i`
abbrev pub joined : TaskSystem → ℕ → ℕ → ℕ → TaskSystem
joined s group_id task_id i =
    let p = task_get s task_id in
    let groups = update s.task_groups i (with_member (s.task_groups i) task_id) in
    put (record s { task_groups = groups }) p (record (deref s p) { group_id = group_id })

unfoldable pub task_group_add : TaskSystem → ℕ → ℕ → Bool × TaskSystem
task_group_add s group_id task_id =
    let p = task_get s task_id in
    if p == null
    then (false, s)
    else elim (first_from (λ i. has_room group_id (s.task_groups i)) 0 max_task_groups) [
      | none ↦ (false, s)
      | some i ↦ (true, joined s group_id task_id i)
    ]

-- the loop over `k`, for `n` steps
unfoldable pub shift : (ℕ → ℕ) → ℕ → ℕ → ℕ → ℕ
shift ids k zero = ids
shift ids k (suc n) = shift (update ids k (ids (k + 1))) (k + 1) n

abbrev pub without_at : TaskGroup → ℕ → TaskGroup
without_at g j = record g {
  task_ids = shift g.task_ids j (g.task_count - 1 - j);
  task_count = g.task_count - 1;
}

-- the body of the loop over the groups, for a group with the id: `none` where the search goes on
unfoldable pub without_member : TaskGroup → ℕ → Option TaskGroup
without_member g task_id = elim (first_from (λ j. g.task_ids j == task_id) 0 g.task_count) [
  | none ↦ none
  | some j ↦ some (without_at g j)
]

-- whether the loop stops at the group
abbrev pub is_member : ℕ → ℕ → TaskGroup → Bool
is_member group_id task_id g = elim (without_member g task_id) [
  | none ↦ false
  | some g' ↦ has_id group_id g
]

-- the task leaves the group in slot `i`
abbrev pub left_by : TaskSystem → ℕ → ℕ → Bool × TaskSystem
left_by s task_id i = elim (without_member (s.task_groups i) task_id) [
  | none ↦ (false, s)
  | some g ↦ (true, record s { task_groups = update s.task_groups i g })
]

unfoldable pub task_group_remove : TaskSystem → ℕ → ℕ → Bool × TaskSystem
task_group_remove s group_id task_id =
    elim (first_from (λ i. is_member group_id task_id (s.task_groups i)) 0 max_task_groups) [
      | none ↦ (false, s)
      | some i ↦ left_by s task_id i
    ]

unfoldable pub task_group_set_memory_limit : TaskSystem → ℕ → ℕ → Bool × TaskSystem
task_group_set_memory_limit s group_id bytes =
    elim (first_from (λ i. has_id group_id (s.task_groups i)) 0 max_task_groups) [
      | none ↦ (false, s)
      | some i ↦
          let g = record (s.task_groups i) { memory_limit = bytes } in
          (true, record s { task_groups = update s.task_groups i g })
    ]

-- only the return code
unfoldable pub task_group_broadcast : TaskSystem → ℕ → Bool
task_group_broadcast s group_id =
    elim (first_from (λ i. has_id group_id (s.task_groups i)) 0 max_task_groups) [
      | none ↦ false
      | some i ↦ true
    ]
