-- ===== src/Task/Spawn/Spawned.antt =====
-- What `task_spawn_with_args` leaves. task.c.
use box_kernel.Base.{
  ℕ, ◌+◌, ◌%◌, ◌^◌, ◌<◌, ◌≡◌, ◌≢◌, refl, ◌∙◌, ap, true, false, Option, none, some, List, [], ◌∷◌,
  ◌++◌, length, replicate, ◌-◌, lt→ltb, ◌==◌, ne→==, update, update_ne, update_self, IsFirst,
  NoneFrom, first_from-absent,
}
use box_kernel.Task.{Ptr, null, max_tasks, Task, TaskContext, running, TaskSystem}
use box_kernel.Task.Table.{task_table_insert, task_get}
use box_kernel.Task.Queue.Links.{has, Holds, Holds-update_ne}
use box_kernel.Task.Queue.Enqueue.{scheduler_enqueue-Holds}
use box_kernel.Task.Queue.Fields.{enqueue-field}
use box_kernel.Task.Spawn.Admitted.{
  IsNew, admitted, admit_task-some, task_get-admitted, task_get-admitted_ne,
}
use box_kernel.Task.Spawn.{
  Supply, task_name, named_task, placed_task, parent_of, put, settle, supplied, kfree, vfree,
  admit_task, equip_task, task_spawn_with_args,
}

-- what a spawn needs: three allocations that succeed, and a name that the field holds
pub record CanSpawn (name : List ℕ) (supply : Supply) : Type 0 where
  pub block : supply.block ≢ null
  pub stack : supply.stack ≢ null
  pub messages : supply.messages ≢ null
  pub short : length name < 31

abbrev pub next_id : TaskSystem → ℕ
next_id s = (s.next_task_id + 1) % 2 ^ 64

module _ (task_init_context : TaskContext → Ptr → Ptr → Ptr → TaskContext) where
  -- the task as it is stored
  abbrev pub spawned : TaskSystem → List ℕ → Ptr → Ptr → ℕ → Supply → Task
  spawned s name entry_point args energy supply =
      let id = next_id s in
      let text = name ++ replicate (32 - length name) 0 in
      let parent = parent_of s supply.block id in
      placed_task task_init_context (named_task id text parent energy supply.now) supply entry_point
        args

  -- the state before the table is searched
  abbrev pub before_insert : TaskSystem → Supply → TaskSystem
  before_insert s supply =
      supplied (record s { blocks = update s.blocks supply.block true; next_task_id = next_id s })
        supply

  equip_task-some :
      (s : TaskSystem) (block : Ptr) (task : Task) (supply : Supply) (entry_point args : Ptr)
      → supply.stack ≢ null
      → supply.messages ≢ null
      → equip_task task_init_context s block task supply entry_point args
        ≡ admit_task
            (supplied s supply)
            block
            (placed_task task_init_context task supply entry_point args)
  unfolding equip_task
  equip_task-some s block task supply entry_point args stack messages =
      rw (ne→== supply.stack null stack) (rw (ne→== supply.messages null messages) refl)

  spawn-some :
      (s : TaskSystem) (name : List ℕ) (entry_point args : Ptr) (energy : ℕ) (supply : Supply)
      → CanSpawn name supply
      → let id = next_id s in
        task_spawn_with_args task_init_context s name entry_point args energy supply
        ≡ some (
            equip_task task_init_context
              (record s { blocks = update s.blocks supply.block true; next_task_id = id })
              supply.block
              (named_task id
                (name ++ replicate (32 - length name) 0)
                (parent_of s supply.block id)
                energy
                supply.now)
              supply
              entry_point
              args)
  unfolding task_spawn_with_args task_name
  spawn-some s name entry_point args energy supply can =
      rw (ne→== supply.block null can.block) (rw (lt→ltb (length name) 31 can.short) refl)

  -- Where the allocations succeed, with memory that no task of the table or the queue lies in, the
  -- counter's next value is no task's id, the name fits and the table has room, the task is
  -- created: it is found under its id, which is that value, all other ids find what they found, and
  -- it is the last one in the scheduler's queue, running with the energy asked for.
  pub task_spawn_with_args_lem :
      (s : TaskSystem) (name : List ℕ) (entry_point args : Ptr) (energy : ℕ) (supply : Supply)
      (k : ℕ) (ps : List Ptr)
      → CanSpawn name supply
      → IsFirst (λ i. s.task_table i == null) 0 max_tasks k
      → IsNew s supply.block (next_id s)
      → Holds s.queue ps
      → has supply.block ps ≡ false
      → (s' : TaskSystem) × (task_spawn_with_args task_init_context s name entry_point args energy
            supply
          ≡ some (supply.block, s'))
        × (task_get s' (next_id s) ≡ supply.block)
        × ((id : ℕ) → id ≢ next_id s → task_get s' id ≡ task_get s id)
        × Holds s'.queue (ps ++ supply.block ∷ [])
        × ((s'.queue.tasks supply.block).state ≡ running)
        × ((s'.queue.tasks supply.block).energy_allocated ≡ energy)
  unfolding task_get
  task_spawn_with_args_lem s name entry_point args energy supply k ps can free new h out =
      let task = spawned s name entry_point args energy supply in
      let s0 = before_insert s supply in
      let block = supply.block in
      let stored = (put s0 block task).queue in
      let own = update_self s.queue.tasks block task in
      let new0 : IsNew s0 block task.task_id = record {
        address = new.address;
        id_lem = new.id_lem;
      } in
      (
        admitted s0 block task k,
        spawn-some s name entry_point args energy supply can
            ∙ ap some (
                equip_task-some _ block _ supply entry_point args can.stack can.messages
                ∙ admit_task-some s0 block task k free),
        task_get-admitted s0 block task k new0 can.block free,
        λ id other. task_get-admitted_ne s0 block task k id new0 free other,
        scheduler_enqueue-Holds stored ps block (Holds-update_ne s.queue ps block task out h)
            can.block out,
        enqueue-field (λ t. t.state) (λ t n p. refl) stored block block
            ∙ ap (λ (t : Task). t.state) own,
        enqueue-field (λ t. t.energy_allocated) (λ t n p. refl) stored block block
            ∙ ap (λ (t : Task). t.energy_allocated) own,
      )

  -- Where the table is full, nothing is created and NULL is returned. The block and the stack are
  -- given back, but not the message queue; the id is used up.
  pub task_spawn_with_args-full :
      (s : TaskSystem) (name : List ℕ) (entry_point args : Ptr) (energy : ℕ) (supply : Supply)
      → CanSpawn name supply
      → NoneFrom (λ i. s.task_table i == null) 0 max_tasks
      → supply.block ≢ supply.messages
      → (s' : TaskSystem) × (task_spawn_with_args task_init_context s name entry_point args energy
            supply
          ≡ some (null, s'))
        × (s'.task_table ≡ s.task_table)
        × (s'.queue.head ≡ s.queue.head)
        × (s'.blocks supply.block ≡ false)
        × (s'.stacks supply.stack ≡ false)
        × (s'.blocks supply.messages ≡ true)
        × (s'.next_task_id ≡ next_id s)
  unfolding admit_task task_table_insert
  task_spawn_with_args-full s name entry_point args energy supply can full apart =
      let task = spawned s name entry_point args energy supply in
      let s0 = before_insert s supply in
      let block = supply.block in
      let s1 = put s0 block task in
      let s' = kfree (vfree s1 supply.stack) block in
      let insert =
        ap
          (λ (o : Option ℕ). elim o [
            | none ↦ (none, s.task_table)
            | some i ↦ (some i, update s.task_table i block)
          ])
          (first_from-absent (λ i. s.task_table i == null) 0 max_tasks full) in
      (
        s',
        spawn-some s name entry_point args energy supply can
            ∙ ap some (
                equip_task-some _ block _ supply entry_point args can.stack can.messages
                ∙ ap (settle s1 block supply.stack) insert),
        refl,
        refl,
        update_self s1.blocks block false,
        update_self s1.stacks supply.stack false,
        update_ne s1.blocks block supply.messages false apart
            ∙ update_self (update s.blocks block true) supply.messages true,
        refl,
      )
