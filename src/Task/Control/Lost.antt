-- ===== src/Task/Control/Lost.antt =====
-- Calls that damage the scheduler's queue: task.c, `task_sleep` of a task that is not in it, and
-- `task_throttle` with `task_resume`.
use box_kernel.Base.{
  ℕ, ◌≡◌, ◌≢◌, refl, sym, ◌∙◌, ap, true, List, ◌∷◌, if◌then◌else◌, ne→==, ltb, ◌-◌,
}
use box_kernel.Task.{Ptr, null, Task, running, throttled, TaskSystem}
use box_kernel.Task.Table.{task_get}
use box_kernel.Task.Queue.Links.{Holds, Holds-tail, same_links}
use box_kernel.Task.Queue.Enqueue.{scheduler_enqueue-own}
use box_kernel.Task.Queue.Dequeue.{scheduler_dequeue-own, scheduler_dequeue-loose}
use box_kernel.Task.Spawn.{put}
use box_kernel.Task.Control.{
  deref, enqueue, dequeue, task_sleep, task_resume, task_throttle, is_throttled,
}
use box_kernel.Task.Control.Sleep.{
  deref-put, task_get-put, task_get-dequeue, asleep, task_sleep-some,
}

-- A task that is put to sleep twice leaves the scheduler without a head and a tail, whatever the
-- queue held before.
pub task_sleep-twice :
    (s : TaskSystem) (id ms now ms' now' : ℕ)
    → task_get s id ≢ null
    → let r = task_sleep (task_sleep s id ms now).1 id ms' now' in
      (r.0 ≡ true) × (r.1.queue.head ≡ null) × (r.1.queue.tail ≡ null)
task_sleep-twice s id ms now ms' now' nz =
    let p = task_get s id in
    let s' = put s p (asleep (deref s p) ms now) in
    let first = dequeue s' p in
    let same : task_get first id ≡ p = task_get-dequeue s' p id ∙ task_get-put s p _ id refl in
    let t = asleep (deref first p) ms' now' in
    let (next, prev) = scheduler_dequeue-own s'.queue p in
    let (next', prev') = same_links (deref-put first p t) in
    let (head, tail) =
      scheduler_dequeue-loose (put first p t).queue p (next' ∙ next) (prev' ∙ prev) in
    let again = task_sleep-some first id ms' now' (λ e. nz (sym same ∙ e)) in
    rw (task_sleep-some s id ms now nz) (rw again (rw same (refl, head, tail)))

task_throttle-some :
    (s : TaskSystem) (id reduction : ℕ)
    → task_get s id ≢ null
    → let t = deref s (task_get s id) in
      task_throttle s id reduction ≡ (
        true,
        put s (task_get s id) (record t {
          energy_allocated =
              if ltb t.energy_allocated reduction then 0 else t.energy_allocated - reduction;
          state = throttled;
        }),
      )
unfolding task_throttle
task_throttle-some s id reduction nz = rw (ne→== (task_get s id) null nz) refl

task_resume-some :
    (s : TaskSystem) (id : ℕ)
    → task_get s id ≢ null
    → is_throttled (deref s (task_get s id)).state ≡ true
    → let p = task_get s id in
      task_resume s id ≡ (true, enqueue (put s p (record (deref s p) { state = running })) p)
unfolding task_resume
task_resume-some s id nz can = rw (ne→== (task_get s id) null nz) (rw can refl)

-- A throttled task keeps its place in the queue, and `task_resume` enters it again: where it was
-- the head of two or more, the head has nothing behind it any longer.
pub task_resume-task_throttle :
    (s : TaskSystem) (id reduction : ℕ) (x : Ptr) (ps : List Ptr)
    → task_get s id ≢ null
    → Holds s.queue (task_get s id ∷ x ∷ ps)
    → let r = task_resume (task_throttle s id reduction).1 id in
      (r.0 ≡ true) × (r.1.queue.head ≡ task_get s id) × ((deref r.1 (task_get s id)).next ≡ null)
task_resume-task_throttle s id reduction x ps nz h =
    let p = task_get s id in
    let old = deref s p in
    let t : Task = record old {
      energy_allocated =
          if ltb old.energy_allocated reduction then 0 else old.energy_allocated - reduction;
      state = throttled;
    } in
    let first = put s p t in
    let same : task_get first id ≡ p = task_get-put s p t id refl in
    let (tail, tail_off) = Holds-tail s.queue p x ps h in
    let t' : Task = record (deref first p) { state = running } in
    let (next, head) = scheduler_enqueue-own (put first p t').queue p tail tail_off in
    let can : is_throttled (deref first (task_get first id)).state ≡ true =
      ap (λ p. is_throttled (deref first p).state) same
      ∙ ap (λ (t : Task). is_throttled t.state) (deref-put s p t) in
    let again = task_resume-some first id (λ e. nz (sym same ∙ e)) can in
    rw (task_throttle-some s id reduction nz) (rw again (rw same (refl, head ∙ h.head_lem, next)))
