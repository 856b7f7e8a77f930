-- ===== src/Task/Schedule/Yield.antt =====
-- Where the scheduler gives up a task: task.c, `task_scheduler_next` with one task in the queue,
-- and `task_scheduler_yield`.
use box_kernel.Base.{
  ℕ, ◌≡◌, ◌≢◌, refl, sym, ◌∙◌, ap, true, ◌||◌, none, List, [], ◌∷◌, ◌==◌, ne→==, update_ne,
  update_self, arith,
}
use box_kernel.Task.{Ptr, null, Task, TaskQueue, TaskSystem, running, waiting_event}
use box_kernel.Task.Queue.Links.{Holds, Holds-update}
use box_kernel.Task.Spawn.{put}
use box_kernel.Task.Control.{deref}
use box_kernel.Task.Schedule.{rotate, switch_context, task_scheduler_next, task_scheduler_yield}
use box_kernel.Task.Schedule.Rotate.{task_scheduler_next-turn, rotate-state}

rotate-head : (q : TaskQueue) (p : Ptr) → (rotate q p).head ≡ (q.tasks p).next
unfolding rotate
rotate-head q p = refl

task_scheduler_next-empty :
    (s : TaskSystem) (now : ℕ) → s.queue.head ≡ null → (task_scheduler_next s now).0 ≡ null
unfolding task_scheduler_next
task_scheduler_next-empty s now empty = rw empty refl

-- A running task that is alone in the queue is returned once. The queue has no head after that, so
-- the next call returns NULL.
pub task_scheduler_next-alone :
    (s : TaskSystem) (now now' : ℕ) (p : Ptr)
    → Holds s.queue (p ∷ [])
    → (deref s p).state ≡ running
    → let r = task_scheduler_next s now in
      (r.0 ≡ p) × (r.1.queue.head ≡ null) × ((task_scheduler_next r.1 now').0 ≡ null)
task_scheduler_next-alone s now now' p h run =
    let (first, current, queue) = task_scheduler_next-turn s now p h.head_lem h.links.0 run in
    let lost = ap (λ (q : TaskQueue). q.head) queue ∙ rotate-head s.queue p ∙ h.links.3 in
    (first, lost, task_scheduler_next-empty (task_scheduler_next s now).1 now' lost)

switch_context-same :
    (s : TaskSystem) (next now : ℕ) → next ≡ s.current_task → switch_context s next now ≡ (none, s)
unfolding switch_context
switch_context-same s next now same =
    let found : ((next == null) || (next == s.current_task)) ≡ true = ground (arith, same) in
    rw found refl

-- the call, from the task that gives up being in its new state
task_scheduler_yield-current :
    (s : TaskSystem) (now now' : ℕ)
    → s.current_task ≢ null
    → let r =
        task_scheduler_next
          (put s s.current_task (record (deref s s.current_task) { state = waiting_event }))
          now in
      task_scheduler_yield s now now' ≡ switch_context r.1 r.0 now'
unfolding task_scheduler_yield
task_scheduler_yield-current s now now' nz = rw (ne→== s.current_task null nz) refl

-- The current task gives up the processor while another one, which is running, stands at the head
-- of a queue of two or more: `task_scheduler_next` has made that one the current task, so no
-- context is switched. The one that gave up stays in the state in which it waits.
pub task_scheduler_yield-turn :
    (s : TaskSystem) (now now' : ℕ) (p x : Ptr) (ps : List Ptr)
    → s.current_task ≢ null
    → s.current_task ≢ p
    → Holds s.queue (p ∷ x ∷ ps)
    → (deref s p).state ≡ running
    → let r = task_scheduler_yield s now now' in
      (r.0 ≡ none) × (r.1.current_task ≡ p) × ((deref r.1 s.current_task).state ≡ waiting_event)
task_scheduler_yield-turn s now now' p x ps nz off h run =
    let current = s.current_task in
    let t : Task = record (deref s current) { state = waiting_event } in
    let saved = put s current t in
    let held : Holds saved.queue (p ∷ x ∷ ps) =
      Holds-update s.queue (p ∷ x ∷ ps) current t refl refl h in
    let run' : (deref saved p).state ≡ running =
      ap (λ (t : Task). t.state) (update_ne s.queue.tasks current p t off) ∙ run in
    let (first, now_current, queue) =
      task_scheduler_next-turn saved now p held.head_lem held.links.0 run' in
    let s' = (task_scheduler_next saved now).1 in
    let ended : task_scheduler_yield s now now' ≡ (none, s') =
      task_scheduler_yield-current s now now' nz
      ∙ switch_context-same s' (task_scheduler_next saved now).0 now' (first ∙ sym now_current) in
    let waits : (deref s' current).state ≡ waiting_event =
      ap (λ (q : TaskQueue). (q.tasks current).state) queue
      ∙ rotate-state saved.queue p current
      ∙ ap (λ (t : Task). t.state) (update_self s.queue.tasks current t) in
    rw ended (refl, now_current, waits)
