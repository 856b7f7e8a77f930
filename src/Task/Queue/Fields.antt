-- ===== src/Task/Queue/Fields.antt =====
-- What the queue's operations leave of a task: all but its two links. task.c, `scheduler_enqueue`
-- and `scheduler_dequeue`.
use mathlib.Core.Path.{subst}
use box_kernel.Base.{
  ◌≡◌, refl, ◌∙◌, ap, inl, inr, ◌==◌, ==_iff, ==→ne, if-both, Bool-cases, update, update_ne,
  update_self,
}
use box_kernel.Task.{Ptr, null, Task, TaskQueue}
use box_kernel.Task.Queue.{
  set_next, set_prev, bypass_prev, bypass_next, scheduler_enqueue, scheduler_dequeue,
}

module _ {ℓ} {A : Type ℓ} (f : Task → A) where
  -- Writing a task that agrees with the one that was there.
  pub update-field :
      (m : Ptr → Task) (p : Ptr) (t : Task) (z : Ptr) → f t ≡ f (m p) → f (update m p t z) ≡ f (m z)
  update-field m p t z same = elim (Bool-cases (p == z)) [
    | inl here ↦
        subst (λ z. f (update m p t z) ≡ f (m z)) ((==_iff p z).0 here)
          (ap f (update_self m p t) ∙ same)
    | inr off ↦ ap f (update_ne m p z t (==→ne p z off))
  ]

  module _ (ignores : (t : Task) (n p : Ptr) → f (record t { next = n; prev = p }) ≡ f t) where
    pub set_next-field : (m : Ptr → Task) (a b z : Ptr) → f (set_next m a b z) ≡ f (m z)
    set_next-field m a b z =
        update-field m a (record (m a) { next = b }) z (ignores (m a) b (m a).prev)

    pub set_prev-field : (m : Ptr → Task) (a b z : Ptr) → f (set_prev m a b z) ≡ f (m z)
    set_prev-field m a b z =
        update-field m a (record (m a) { prev = b }) z (ignores (m a) (m a).next b)

    pub enqueue-field :
        (q : TaskQueue) (t z : Ptr) → f ((scheduler_enqueue q t).tasks z) ≡ f (q.tasks z)
    unfolding scheduler_enqueue
    enqueue-field q t z =
        let m = set_next q.tasks t null in
        let same = set_prev-field m t q.tail z ∙ set_next-field q.tasks t null z in
        if-both (λ (q' : TaskQueue). f (q'.tasks z) ≡ f (q.tasks z)) (q.tail == null) same
          (set_next-field (set_prev m t q.tail) q.tail t z ∙ same)

    pub dequeue-field :
        (q : TaskQueue) (t z : Ptr) → f ((scheduler_dequeue q t).tasks z) ≡ f (q.tasks z)
    unfolding scheduler_dequeue
    dequeue-field q t z =
        let q' = bypass_prev q t in
        let q'' = bypass_next q' t in
        let first =
          if-both (λ (q' : TaskQueue). f (q'.tasks z) ≡ f (q.tasks z)) ((q.tasks t).prev == null)
            refl (set_next-field q.tasks (q.tasks t).prev (q.tasks t).next z) in
        let second =
          if-both (λ (q'' : TaskQueue). f (q''.tasks z) ≡ f (q'.tasks z))
            ((q'.tasks t).next == null) refl
            (set_prev-field q'.tasks (q'.tasks t).next (q'.tasks t).prev z) in
        set_prev-field (set_next q''.tasks t null) t null z
        ∙ set_next-field q''.tasks t null z
        ∙ second
        ∙ first

pub enqueue-state :
    (q : TaskQueue) (t z : Ptr) → ((scheduler_enqueue q t).tasks z).state ≡ (q.tasks z).state
enqueue-state = enqueue-field (λ t. t.state) (λ t n p. refl)

pub enqueue-task_id :
    (q : TaskQueue) (t z : Ptr) → ((scheduler_enqueue q t).tasks z).task_id ≡ (q.tasks z).task_id
enqueue-task_id = enqueue-field (λ t. t.task_id) (λ t n p. refl)

pub dequeue-state :
    (q : TaskQueue) (t z : Ptr) → ((scheduler_dequeue q t).tasks z).state ≡ (q.tasks z).state
dequeue-state = dequeue-field (λ t. t.state) (λ t n p. refl)

pub dequeue-owned :
    (q : TaskQueue) (t z : Ptr)
    → (((scheduler_dequeue q t).tasks z).stack_base ≡ (q.tasks z).stack_base)
      × (((scheduler_dequeue q t).tasks z).message_queue ≡ (q.tasks z).message_queue)
      × (((scheduler_dequeue q t).tasks z).context.fpu_state ≡ (q.tasks z).context.fpu_state)
dequeue-owned q t z = (
  dequeue-field (λ t. t.stack_base) (λ t n p. refl) q t z,
  dequeue-field (λ t. t.message_queue) (λ t n p. refl) q t z,
  dequeue-field (λ t. t.context.fpu_state) (λ t n p. refl) q t z,
)

pub dequeue-task_id :
    (q : TaskQueue) (t z : Ptr) → ((scheduler_dequeue q t).tasks z).task_id ≡ (q.tasks z).task_id
dequeue-task_id = dequeue-field (λ t. t.task_id) (λ t n p. refl)
