-- ===== src/Task/Schedule/Rotate.antt =====
-- What the scheduler does with its queue: task.c, `task_scheduler_next` and `task_scheduler_yield`.
use mathlib.Core.Path.{subst}
use box_kernel.Base.{
  ℕ, ◌≡◌, ◌≢◌, refl, sym, ◌∙◌, ap, true, false, List, [], ◌∷◌, ◌++◌, ◌==◌, if◌then◌else◌, ne→==,
  if-both, length, length-append, ◌+◌, ◌≤◌, append_assoc, append-nil, arith,
}
use box_kernel.Task.{Ptr, null, Task, TaskQueue, TaskSystem, running}
use box_kernel.Task.Queue.{set_next, set_prev, scheduler_enqueue}
use box_kernel.Task.Queue.Links.{
  has, has-snoc, last_or, Holds, Seg-set_prev, Seg-ne-null, has-last_or,
}
use box_kernel.Task.Queue.Enqueue.{scheduler_enqueue-Holds}
use box_kernel.Task.Control.{deref}
use box_kernel.Task.Schedule.{rotate, roused, take_turn, task_scheduler_next}

-- Taking off the head and putting it at the tail is an entry in what is left of the queue.
abbrev without_head : TaskQueue → Ptr → TaskQueue
without_head q x = record q { tasks = set_prev q.tasks x null; head = x }

without_head-Holds :
    (q : TaskQueue) (p x : Ptr) (ps : List Ptr)
    → Holds q (p ∷ x ∷ ps)
    → Holds (without_head q x) (x ∷ ps)
without_head-Holds q p x ps h =
    let (nz, out, back, on, rest) = h.links in
    record {
      links = Seg-set_prev q.tasks p null null (x ∷ ps) rest;
      head_lem = refl;
      tail_lem = h.tail_lem;
    }

-- With two tasks or more the head goes behind the others.
pub rotate-Holds :
    (q : TaskQueue) (p x : Ptr) (ps : List Ptr)
    → Holds q (p ∷ x ∷ ps)
    → Holds (rotate q p) (x ∷ ps ++ p ∷ [])
unfolding rotate scheduler_enqueue
rotate-Holds q p x ps h =
    let (nz, out, back, on, rest) = h.links in
    let some_next : (x == null) ≡ false =
      ne→== x null (Seg-ne-null q.tasks p null x (x ∷ ps) rest (ground arith)) in
    let some_tail : (q.tail == null) ≡ false = ne→== q.tail null (λ e.
      Seg-ne-null q.tasks p null (last_or x ps) (x ∷ ps) rest (has-last_or x ps)
        (sym h.tail_lem ∙ e)) in
    let entered =
      scheduler_enqueue-Holds (without_head q x) (x ∷ ps) p (without_head-Holds q p x ps h) nz
        out in
    rw on (rw some_next (rw some_tail (rw some_tail at entered)))

set_next-state : (m : Ptr → Task) (a b z : Ptr) → (set_next m a b z).state ≡ (m z).state
set_next-state m a b z = ground arith

set_prev-state : (m : Ptr → Task) (a b z : Ptr) → (set_prev m a b z).state ≡ (m z).state
set_prev-state m a b z = ground arith

-- No task's state changes.
pub rotate-state : (q : TaskQueue) (p z : Ptr) → ((rotate q p).tasks z).state ≡ (q.tasks z).state
unfolding rotate
rotate-state q p z =
    let Same : (Ptr → Task) → Type 0 = λ m. (m z).state ≡ (q.tasks z).state in
    let head = (q.tasks p).next in
    let tasks = if head == null then q.tasks else set_prev q.tasks head null in
    let started : Same tasks =
      if-both Same (head == null) refl (set_prev-state q.tasks head null z) in
    let moved = set_prev (set_next tasks p null) p q.tail in
    let same : Same moved =
      set_prev-state (set_next tasks p null) p q.tail z ∙ set_next-state tasks p null z ∙ started in
    if-both Same (q.tail == null) same (set_next-state moved q.tail p z ∙ same)

-- A running task at the head has its turn.
pub task_scheduler_next-turn :
    (s : TaskSystem) (now : ℕ) (p : Ptr)
    → s.queue.head ≡ p
    → p ≢ null
    → (deref s p).state ≡ running
    → let r = task_scheduler_next s now in
      (r.0 ≡ p) × (r.1.current_task ≡ p) × (r.1.queue ≡ rotate s.queue p)
unfolding task_scheduler_next roused take_turn
task_scheduler_next-turn s now p head nz run =
    let some_head : (p == null) ≡ false = ne→== p null nz in
    rw head (rw some_head (rw run (rw some_head (rw run (refl, refl, refl)))))

abbrev AllRunning : TaskSystem → List Ptr → Type 0
AllRunning s ps = (p : Ptr) → has p ps ≡ true → (deref s p).state ≡ running

-- a call of `task_scheduler_next` at each of the times, and what they return
abbrev pub turns : TaskSystem → List ℕ → List Ptr × TaskSystem
turns s [] = ([], s)
turns s (now ∷ nows) =
    let (p, s') = task_scheduler_next s now in let (ps, s'') = turns s' nows in (p ∷ ps, s'')

task_scheduler_next-Holds :
    (s : TaskSystem) (now : ℕ) (p : Ptr) (ps : List Ptr)
    → 1 ≤ length ps
    → Holds s.queue (p ∷ ps)
    → AllRunning s (p ∷ ps)
    → let r = task_scheduler_next s now in
      (r.0 ≡ p) × Holds r.1.queue (ps ++ p ∷ []) × AllRunning r.1 (ps ++ p ∷ [])
task_scheduler_next-Holds s now p [] some_more h run = absurd (omega arith)
task_scheduler_next-Holds s now p (x ∷ ps) some_more h run =
    let (first, current, queue) =
      task_scheduler_next-turn s now p h.head_lem h.links.0 (run p (ground arith)) in
    (
      first,
      rw queue (rotate-Holds s.queue p x ps h),
      λ z in'.
          ap (λ (q : TaskQueue). (q.tasks z).state) queue
          ∙ rotate-state s.queue p z
          ∙ run z (has-snoc z p (x ∷ ps) in'),
    )

-- Where all tasks of the queue run and they are two or more, calls take the tasks in the order of
-- the queue, each once before any comes again.
pub turns-Holds :
    (s : TaskSystem) (nows : List ℕ) (xs ys : List Ptr)
    → length nows ≡ length xs
    → 2 ≤ length xs + length ys
    → Holds s.queue (xs ++ ys)
    → AllRunning s (xs ++ ys)
    → ((turns s nows).0 ≡ xs) × Holds (turns s nows).1.queue (ys ++ xs)
turns-Holds s [] [] ys same two h run = (refl, rw append-nil h)
turns-Holds s [] (x ∷ xs) ys same two h run = absurd (omega arith)
turns-Holds s (now ∷ nows) [] ys same two h run = absurd (omega arith)
turns-Holds s (now ∷ nows) (p ∷ xs) ys same two h run =
    let s' = (task_scheduler_next s now).1 in
    let more : 1 ≤ length (xs ++ ys) = omega (arith, length-append xs ys) in
    let (first, h', run') = task_scheduler_next-Holds s now p (xs ++ ys) more h run in
    let two' : 2 ≤ length xs + length (ys ++ p ∷ []) =
      omega (arith, length-append ys (p ∷ []), two) in
    let assoc = append_assoc xs ys (p ∷ []) in
    let (rest, h'') =
      turns-Holds s' nows xs (ys ++ p ∷ []) (omega arith) two' (subst (Holds s'.queue) assoc h')
        (subst (AllRunning s') assoc run') in
    (
      rw first (ap (λ l. p ∷ l) rest),
      subst (Holds (turns s' nows).1.queue) (append_assoc ys (p ∷ []) xs) h'',
    )
