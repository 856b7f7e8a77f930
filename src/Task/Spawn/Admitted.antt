-- ===== src/Task/Spawn/Admitted.antt =====
-- A new task has a slot of the table and a place in the queue: task.c, the end of
-- `task_spawn_with_args`.
use mathlib.Core.Bool.{false≢true}
use mathlib.Core.Path.{subst}
use box_kernel.Base.{
  ℕ, ◌+◌, ◌%◌, ◌^◌, ◌<◌, ◌≡◌, ◌≢◌, sym, ◌∙◌, ap, inl, inr, true, false, Option, none, some, ◌==◌,
  ==_iff, ==→ne, Bool-cases, update, update_ne, update_self, IsFirst, first_from-first, arith,
}
use box_kernel.Task.{Ptr, null, max_tasks, Task, TaskSystem}
use box_kernel.Task.Table.{task_table_insert, task_get}
use box_kernel.Task.Table.Lookup.{
  id_at, held, held-false, held-same, held-intro, task_get-first, task_get-agree,
}
use box_kernel.Task.Queue.{scheduler_enqueue}
use box_kernel.Task.Queue.Fields.{enqueue-task_id}
use box_kernel.Task.Spawn.{put, settle, admit_task}

task_table_insert-first :
    (table : ℕ → Ptr) (p k : Ptr)
    → IsFirst (λ i. table i == null) 0 max_tasks k
    → task_table_insert table p ≡ (some k, update table k p)
unfolding task_table_insert
task_table_insert-first table p k f =
    ap (λ (o : Option ℕ). elim o [ none ↦ (none, table) | some i ↦ (some i, update table i p) ])
      (first_from-first (λ i. table i == null) 0 max_tasks k f)

-- the state after the new task has its slot and its place in the queue
abbrev pub admitted : TaskSystem → Ptr → Task → ℕ → TaskSystem
admitted s block task k =
    let stored = put s block task in
    record stored {
      queue = scheduler_enqueue stored.queue block;
      task_table = update s.task_table k block;
      tasks_created = (s.tasks_created + 1) % 2 ^ 64;
    }

pub admit_task-some :
    (s : TaskSystem) (block : Ptr) (task : Task) (k : ℕ)
    → IsFirst (λ i. s.task_table i == null) 0 max_tasks k
    → admit_task s block task ≡ (block, admitted s block task k)
unfolding admit_task
admit_task-some s block task k f =
    ap (settle (put s block task) block task.stack_base)
      (task_table_insert-first s.task_table block k f)

-- no task in the table has the address or the id
pub record IsNew (s : TaskSystem) (block : Ptr) (id : ℕ) : Type 0 where
  pub address : (i : ℕ) → i < max_tasks → s.task_table i ≢ block
  pub id_lem : (i : ℕ) → i < max_tasks → s.task_table i ≢ null → id_at s (s.task_table i) ≢ id

admitted-id :
    (s : TaskSystem) (block : Ptr) (task : Task) (k : ℕ) (p : Ptr)
    → block ≢ p
    → id_at (admitted s block task k) p ≡ id_at s p
admitted-id s block task k p off =
    enqueue-task_id (put s block task).queue block p
    ∙ ap (λ (t : Task). t.task_id) (update_ne s.queue.tasks block p task off)

admitted-own :
    (s : TaskSystem) (block : Ptr) (task : Task) (k : ℕ)
    → id_at (admitted s block task k) block ≡ task.task_id
admitted-own s block task k =
    enqueue-task_id (put s block task).queue block block
    ∙ ap (λ (t : Task). t.task_id) (update_self s.queue.tasks block task)

-- the slots but the new one hold what they held
admitted-held :
    (s : TaskSystem) (block : Ptr) (task : Task) (k id i : ℕ)
    → IsNew s block task.task_id
    → i < max_tasks
    → k ≢ i
    → held (admitted s block task k) id i ≡ held s id i
admitted-held s block task k id i new below off =
    held-same s (admitted s block task k) id i (update_ne s.task_table k i block off)
      (λ nz. admitted-id s block task k (s.task_table i) (λ e. new.address i below (sym e)))

-- The new task is found under its id.
pub task_get-admitted :
    (s : TaskSystem) (block : Ptr) (task : Task) (k : ℕ)
    → IsNew s block task.task_id
    → block ≢ null
    → IsFirst (λ i. s.task_table i == null) 0 max_tasks k
    → task_get (admitted s block task k) task.task_id ≡ block
task_get-admitted s block task k new nz f =
    let s' = admitted s block task k in
    let id = task.task_id in
    let here : s'.task_table k ≡ block = update_self s.task_table k block in
    let hit : held s' id k ≡ true =
      held-intro s' id k (λ e. nz (sym here ∙ e))
        (ap (id_at s') here ∙ admitted-own s block task k) in
    let first : IsFirst (held s' id) 0 max_tasks k = record {
      passes = hit;
      from = f.from;
      below = f.below;
      before = λ j l h.
          admitted-held s block task k id j new (omega (arith, f.below, h)) (omega (arith, h))
          ∙ held-false s id j (new.id_lem j (omega (arith, f.below, h)));
    } in
    task_get-first s' id k first ∙ here

-- All other ids find what they found.
pub task_get-admitted_ne :
    (s : TaskSystem) (block : Ptr) (task : Task) (k id : ℕ)
    → IsNew s block task.task_id
    → IsFirst (λ i. s.task_table i == null) 0 max_tasks k
    → id ≢ task.task_id
    → task_get (admitted s block task k) id ≡ task_get s id
task_get-admitted_ne s block task k id new f other =
    let s' = admitted s block task k in
    let here : s'.task_table k ≡ block = update_self s.task_table k block in
    let free : s.task_table k ≡ null = (==_iff (s.task_table k) null).0 f.passes in
    let was : held s id k ≡ false = held-false s id k (λ nz. absurd (nz free)) in
    let now : held s' id k ≡ false =
      held-false s' id k
        (λ nz e. other (sym e ∙ ap (id_at s') here ∙ admitted-own s block task k)) in
    task_get-agree s s' id
      (λ i below. elim (Bool-cases (k == i)) [
        | inl e ↦ subst (λ i. held s' id i ≡ held s id i) ((==_iff k i).0 e) (now ∙ sym was)
        | inr off ↦ admitted-held s block task k id i new below (==→ne k i off)
      ])
      (λ i below hit. elim (Bool-cases (k == i)) [
        | inl e ↦ absurd (false≢true (sym was ∙ ap (held s id) ((==_iff k i).0 e) ∙ hit))
        | inr off ↦ update_ne s.task_table k i block (==→ne k i off)
      ])
