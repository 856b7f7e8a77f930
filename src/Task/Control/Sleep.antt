-- ===== src/Task/Control/Sleep.antt =====
-- A task sleeps, wakes, is throttled and resumed: task.c, `task_sleep` to `task_throttle`.
use mathlib.Core.Path.{subst}
use box_kernel.Base.{
  ℕ, ◌+◌, ◌*◌, ◌%◌, ◌^◌, ◌≡◌, ◌≢◌, refl, sym, ◌∙◌, ap, true, false, List, [], ◌∷◌, ◌++◌, ne→==,
  update_self,
}
use box_kernel.Task.{Ptr, null, Task, running, sleeping, TaskSystem}
use box_kernel.Task.Table.{task_get}
use box_kernel.Task.Table.Lookup.{id_at, task_get-same}
use box_kernel.Task.Queue.Links.{has, Holds, Holds-update}
use box_kernel.Task.Queue.Enqueue.{scheduler_enqueue-Holds}
use box_kernel.Task.Queue.Dequeue.{scheduler_dequeue-Holds, Holds-once}
use box_kernel.Task.Queue.Fields.{update-field, enqueue-state, dequeue-state, dequeue-task_id}
use box_kernel.Task.Spawn.{put}
use box_kernel.Task.Control.{deref, enqueue, dequeue, task_sleep, task_wake, can_wake}

pub deref-put : (s : TaskSystem) (p : Ptr) (t : Task) → deref (put s p t) p ≡ t
deref-put s p t = update_self s.queue.tasks p t

-- Writing a task with the id that was there changes no look-up.
pub task_get-put :
    (s : TaskSystem) (p : Ptr) (t : Task) (id : ℕ)
    → t.task_id ≡ id_at s p
    → task_get (put s p t) id ≡ task_get s id
task_get-put s p t id same =
    task_get-same s (put s p t) id (λ i. refl)
      (λ z. update-field (λ t. t.task_id) s.queue.tasks p t z same)

pub task_get-dequeue :
    (s : TaskSystem) (p : Ptr) (id : ℕ) → task_get (dequeue s p) id ≡ task_get s id
task_get-dequeue s p id =
    task_get-same s (dequeue s p) id (λ i. refl) (λ z. dequeue-task_id s.queue p z)

-- the task as `task_sleep` writes it
abbrev pub asleep : Task → ℕ → ℕ → Task
asleep t milliseconds now = record t {
  sleep_until = (now + milliseconds * 2400000 % 2 ^ 64) % 2 ^ 64;
  state = sleeping;
}

pub task_sleep-some :
    (s : TaskSystem) (id milliseconds now : ℕ)
    → task_get s id ≢ null
    → let p = task_get s id in
      task_sleep s id milliseconds now
      ≡ (true, dequeue (put s p (asleep (deref s p) milliseconds now)) p)
unfolding task_sleep
task_sleep-some s id milliseconds now nz = rw (ne→== (task_get s id) null nz) refl

-- A task of the queue that is put to sleep is out of it and asleep, and the others keep their
-- order.
pub task_sleep-Holds :
    (s : TaskSystem) (id milliseconds now : ℕ) (xs ys : List Ptr)
    → task_get s id ≢ null
    → Holds s.queue (xs ++ task_get s id ∷ ys)
    → let r = task_sleep s id milliseconds now in
      (r.0 ≡ true)
      × Holds r.1.queue (xs ++ ys)
      × ((deref r.1 (task_get s id)).state ≡ sleeping)
      × (task_get r.1 id ≡ task_get s id)
task_sleep-Holds s id milliseconds now xs ys nz h =
    let p = task_get s id in
    let t = asleep (deref s p) milliseconds now in
    let s' = put s p t in
    let held = Holds-update s.queue (xs ++ p ∷ ys) p t refl refl h in
    rw (task_sleep-some s id milliseconds now nz) (
      refl,
      scheduler_dequeue-Holds s'.queue xs p ys held,
      dequeue-state s'.queue p p ∙ ap (λ (t : Task). t.state) (deref-put s p t),
      task_get-dequeue s' p id ∙ task_get-put s p t id refl,
    )

task_wake-some :
    (s : TaskSystem) (id : ℕ)
    → task_get s id ≢ null
    → can_wake (deref s (task_get s id)).state ≡ true
    → let p = task_get s id in
      task_wake s id
      ≡ (true, enqueue (put s p (record (deref s p) { state = running; sleep_until = 0 })) p)
unfolding task_wake
task_wake-some s id nz can = rw (ne→== (task_get s id) null nz) (rw can refl)

-- A task that can be woken and is not in the queue enters it at the end, and runs.
pub task_wake-Holds :
    (s : TaskSystem) (id : ℕ) (ps : List Ptr)
    → task_get s id ≢ null
    → can_wake (deref s (task_get s id)).state ≡ true
    → Holds s.queue ps
    → has (task_get s id) ps ≡ false
    → let r = task_wake s id in
      (r.0 ≡ true)
      × Holds r.1.queue (ps ++ task_get s id ∷ [])
      × ((deref r.1 (task_get s id)).state ≡ running)
task_wake-Holds s id ps nz can h out =
    let p = task_get s id in
    let t : Task = record (deref s p) { state = running; sleep_until = 0 } in
    let s' = put s p t in
    let held = Holds-update s.queue ps p t refl refl h in
    rw (task_wake-some s id nz can) (
      refl,
      scheduler_enqueue-Holds s'.queue ps p held nz out,
      enqueue-state s'.queue p p ∙ ap (λ (t : Task). t.state) (deref-put s p t),
    )

-- A task of the queue that is put to sleep and then woken runs again, behind the others.
pub task_wake-task_sleep :
    (s : TaskSystem) (id milliseconds now : ℕ) (xs ys : List Ptr)
    → task_get s id ≢ null
    → Holds s.queue (xs ++ task_get s id ∷ ys)
    → let r = task_wake (task_sleep s id milliseconds now).1 id in
      (r.0 ≡ true)
      × Holds r.1.queue (xs ++ ys ++ task_get s id ∷ [])
      × ((deref r.1 (task_get s id)).state ≡ running)
task_wake-task_sleep s id milliseconds now xs ys nz h =
    let p = task_get s id in
    let s' = (task_sleep s id milliseconds now).1 in
    let (ok, held, slept, same) = task_sleep-Holds s id milliseconds now xs ys nz h in
    let out = Holds-once s.queue xs p ys h in
    let woken =
      task_wake-Holds s' id (xs ++ ys) (λ e. nz (sym same ∙ e))
        (ap can_wake (ap (λ p. (deref s' p).state) same ∙ slept)) held
        (ap (λ p. has p (xs ++ ys)) same ∙ out) in
    (
      woken.0,
      subst (λ z. Holds (task_wake s' id).1.queue (xs ++ ys ++ z ∷ [])) same woken.1,
      subst (λ z. (deref (task_wake s' id).1 z).state ≡ running) same woken.2,
    )
