-- ===== src/Task/Spawn/Killed.antt =====
-- What `task_kill` leaves. task.c.
use mathlib.Core.Bool.{false≢true}
use mathlib.Core.Path.{subst}
use box_kernel.Base.{
  ℕ, ◌+◌, ◌%◌, ◌^◌, ◌<◌, ◌≡◌, ◌≢◌, refl, sym, ◌∙◌, ap, inl, inr, true, false, Option, none, some,
  List, ◌∷◌, ◌++◌, ◌==◌, ==_iff, ==→ne, ne→==, Bool-cases, update, update_ne, update_self,
  first_from-first, arith, not, ◌&&◌, ◌||◌, if◌then◌else◌, Bool,
}
use box_kernel.Task.{Ptr, null, max_tasks, Task, dead, TaskSystem}
use box_kernel.Task.Table.{task_table_remove, task_get}
use box_kernel.Task.Table.Lookup.{
  id_at, held, held-true, held-false, held-same, Slot, task_get-Slot, task_get-absent,
  task_get-agree,
}
use box_kernel.Task.Queue.{scheduler_dequeue}
use box_kernel.Task.Queue.Links.{Holds, Holds-update}
use box_kernel.Task.Queue.Dequeue.{scheduler_dequeue-Holds}
use box_kernel.Task.Queue.Fields.{update-field, dequeue-task_id, dequeue-owned}
use box_kernel.Task.Control.{deref}
use box_kernel.Task.Spawn.{put, free_owned, kfree, task_kill}

-- the state before the table is searched for the task's slot
abbrev pub unlinked : TaskSystem → Ptr → TaskSystem
unlinked s p =
    let q = scheduler_dequeue s.queue p in
    let task : Task = record (q.tasks p) { state = dead } in
    free_owned (put (record s { queue = q }) p task) task

unlinked-id : (s : TaskSystem) (p z : Ptr) → id_at (unlinked s p) z ≡ id_at s z
unlinked-id s p z =
    let q = scheduler_dequeue s.queue p in
    update-field (λ t. t.task_id) q.tasks p (record (q.tasks p) { state = dead }) z refl
    ∙ dequeue-task_id s.queue p z

-- the state that the call leaves, with the table that it leaves
abbrev pub killed : TaskSystem → Ptr → (ℕ → Ptr) → TaskSystem
killed s p table = record (kfree (unlinked s p) p) {
  task_table = table;
  tasks_destroyed = (s.tasks_destroyed + 1) % 2 ^ 64;
}

task_kill-some :
    (s : TaskSystem) (id : ℕ)
    → task_get s id ≢ null
    → let p = task_get s id in
      task_kill s id
      ≡ (true, killed s p (task_table_remove (unlinked s p).queue.tasks s.task_table id))
unfolding task_kill
task_kill-some s id nz = rw (ne→== (task_get s id) null nz) refl

task_table_remove-Slot :
    (s : TaskSystem) (id : ℕ) (p : Ptr) (slot : Slot s id p)
    → task_table_remove (unlinked s p).queue.tasks s.task_table id
      ≡ update s.task_table slot.slot null
unfolding task_table_remove
task_table_remove-Slot s id p slot =
    let s' = unlinked s p in
    let same : (j : ℕ) → held s' id j ≡ held s id j =
      λ j. held-same s s' id j refl (λ nz. unlinked-id s p (s.task_table j)) in
    let f = slot.first in
    ap (λ (o : Option ℕ). elim o [ none ↦ s.task_table | some i ↦ update s.task_table i null ])
      (first_from-first (held s' id) 0 max_tasks slot.slot (record {
        passes = same slot.slot ∙ f.passes;
        from = f.from;
        below = f.below;
        before = λ j l h. same j ∙ f.before j l h;
      }))

-- at most one slot holds the id
abbrev pub HeldOnce : TaskSystem → ℕ → Type 0
HeldOnce s id =
    (i j : ℕ) → i < max_tasks → j < max_tasks → held s id i ≡ true → held s id j ≡ true → i ≡ j

-- What the slots hold afterwards: the task's slot nothing, the others what they held.
module _ (s : TaskSystem) (p : Ptr) (k : ℕ) where
  emptied : TaskSystem
  emptied = killed s p (update s.task_table k null)

  emptied-slot : (id : ℕ) → held emptied id k ≡ false
  unfolding emptied
  emptied-slot id = held-false emptied id k (λ nz. absurd (nz (update_self s.task_table k null)))

  emptied-held : (id i : ℕ) → k ≢ i → held emptied id i ≡ held s id i
  unfolding emptied
  emptied-held id i off =
      held-same s emptied id i (update_ne s.task_table k i null off)
        (λ nz. unlinked-id s p (s.task_table i))

  task_get-emptied :
      (id : ℕ) → k < max_tasks → HeldOnce s id → held s id k ≡ true → task_get emptied id ≡ null
  task_get-emptied id below once hit = task_get-absent emptied id (λ i l h.
      elim (Bool-cases (k == i)) [
        | inl e ↦ subst (λ i. held emptied id i ≡ false) ((==_iff k i).0 e) (emptied-slot id)
        | inr off ↦
            let off' : k ≢ i = ==→ne k i off in
            emptied-held id i off' ∙ (elim (Bool-cases (held s id i)) [
              | inl hit' ↦ absurd (off' (once k i below (omega (arith, h)) hit hit'))
              | inr miss ↦ miss
            ])
      ])

  task_get-emptied_ne :
      (id other : ℕ) → held s id k ≡ true → other ≢ id → task_get emptied other ≡ task_get s other
  unfolding emptied
  task_get-emptied_ne id other hit ne =
      let was : held s other k ≡ false =
        held-false s other k (λ nz e. ne (sym e ∙ (held-true s id k hit).1)) in
      task_get-agree s emptied other
        (λ i below. elim (Bool-cases (k == i)) [
          | inl e ↦
              subst (λ i. held emptied other i ≡ held s other i) ((==_iff k i).0 e)
                (emptied-slot other ∙ sym was)
          | inr off ↦ emptied-held other i (==→ne k i off)
        ])
        (λ i below hit'. elim (Bool-cases (k == i)) [
          | inl e ↦ absurd (false≢true (sym was ∙ ap (held s other) ((==_iff k i).0 e) ∙ hit'))
          | inr off ↦ update_ne s.task_table k i null (==→ne k i off)
        ])

-- whether a stack is the task's, and whether a block of memory is its message queue or its FPU state
abbrev pub own_stack : Task → Ptr → Bool
own_stack task a = not (a == null) && (a == task.stack_base)

abbrev pub own_block : Task → Ptr → Bool
own_block task a = not (a == null) && ((a == task.message_queue) || (a == task.context.fpu_state))

-- what `if (p) free(p)` leaves
freed_if :
    (m : Ptr → Bool) (p a : Ptr)
    → (if p == null then m else update m p false) a ≡ (m a && not (not (a == null) && (a == p)))
freed_if m p a = elim (Bool-cases (p == null)) [
  | inl none_there ↦ rw none_there (ground (arith, none_there))
  | inr there ↦ rw there (ground (arith, there))
]

given_back_stacks :
    (s : TaskSystem) (p a : Ptr)
    → (unlinked s p).stacks a ≡ (s.stacks a && not (own_stack (deref s p) a))
given_back_stacks s p a =
    let (stack, _, _) = dequeue-owned s.queue p p in
    freed_if s.stacks ((scheduler_dequeue s.queue p).tasks p).stack_base a
    ∙ ap (λ b. s.stacks a && not (not (a == null) && (a == b))) stack

given_back_blocks :
    (s : TaskSystem) (p a : Ptr)
    → update (unlinked s p).blocks p false a
      ≡ (s.blocks a && not ((a == p) || own_block (deref s p) a))
given_back_blocks s p a =
    let (_, messages, fpu) = dequeue-owned s.queue p p in
    let task = (scheduler_dequeue s.queue p).tasks p in
    let first = freed_if s.blocks task.context.fpu_state a in
    let blocks =
      if task.context.fpu_state == null
      then s.blocks
      else update s.blocks task.context.fpu_state false in
    let second = freed_if blocks task.message_queue a in
    ground (arith, second, first, messages, fpu)

-- A task of the queue whose id is held by one slot alone is killed: it is out of the queue and of
-- the table, its id finds nothing, all other ids find what they found. Its stack, its own block,
-- its message queue and its FPU state are given back, where it has them, and no other memory is.
pub task_kill_lem :
    (s : TaskSystem) (id : ℕ) (xs ys : List Ptr)
    → task_get s id ≢ null
    → HeldOnce s id
    → Holds s.queue (xs ++ task_get s id ∷ ys)
    → let r = task_kill s id in
      (r.0 ≡ true)
      × (task_get r.1 id ≡ null)
      × ((other : ℕ) → other ≢ id → task_get r.1 other ≡ task_get s other)
      × Holds r.1.queue (xs ++ ys)
      × ((a : Ptr) → r.1.stacks a ≡ (s.stacks a && not (own_stack (deref s (task_get s id)) a)))
      × ((a : Ptr)
          → r.1.blocks a
            ≡ (s.blocks a && not ((a == task_get s id) || own_block (deref s (task_get s id)) a)))
unfolding emptied
task_kill_lem s id xs ys nz once h =
    let p = task_get s id in
    let slot = task_get-Slot s id nz in
    let k = slot.slot in
    let s' = emptied s p k in
    let hit = slot.first.passes in
    let call : task_kill s id ≡ (true, s') =
      task_kill-some s id nz
      ∙ ap (λ (table : ℕ → Ptr). (true, killed s p table)) (task_table_remove-Slot s id p slot) in
    let q = scheduler_dequeue s.queue p in
    rw call (
      refl,
      task_get-emptied s p k id (omega (arith, slot.first.below)) once hit,
      λ other ne. task_get-emptied_ne s p k id other hit ne,
      Holds-update q (xs ++ ys) p (record (q.tasks p) { state = dead }) refl refl
          (scheduler_dequeue-Holds s.queue xs p ys h),
      given_back_stacks s p,
      given_back_blocks s p,
    )
