-- ===== src/Task/Table/Lookup.antt =====
-- What `task_get` finds. task.c.
use box_kernel.Base.{
  ℕ, ◌<◌, ◌≡◌, ◌≢◌, refl, sym, ◌∙◌, ap, inl, inr, Bool, true, false, Option, none, some, ◌==◌,
  ==→ne, Bool-cases, IsFirst, NoneFrom, found, absent, first_from-first, first_from-absent,
  first_from-Searched, arith,
}
use box_kernel.Task.{Ptr, null, max_tasks, TaskSystem}
use box_kernel.Task.Table.{holds, task_get}

abbrev pub id_at : TaskSystem → Ptr → ℕ
id_at s p = (s.queue.tasks p).task_id

-- the test of the search for an id
abbrev pub held : TaskSystem → ℕ → ℕ → Bool
held s task_id i = holds s.queue.tasks task_id (s.task_table i)

pub held-true :
    (s : TaskSystem) (task_id i : ℕ)
    → held s task_id i ≡ true
    → (s.task_table i ≢ null) × (id_at s (s.task_table i) ≡ task_id)
held-true s task_id i h = ground (arith, h)

pub held-intro :
    (s : TaskSystem) (task_id i : ℕ)
    → s.task_table i ≢ null
    → id_at s (s.task_table i) ≡ task_id
    → held s task_id i ≡ true
held-intro s task_id i nz e = ground (arith, nz, e)

pub task_get-first :
    (s : TaskSystem) (task_id k : ℕ)
    → IsFirst (held s task_id) 0 max_tasks k
    → task_get s task_id ≡ s.task_table k
unfolding task_get
task_get-first s task_id k f =
    ap (λ (o : Option ℕ). elim o [ none ↦ null | some i ↦ s.task_table i ])
      (first_from-first (held s task_id) 0 max_tasks k f)

pub task_get-absent :
    (s : TaskSystem) (task_id : ℕ)
    → NoneFrom (held s task_id) 0 max_tasks
    → task_get s task_id ≡ null
unfolding task_get
task_get-absent s task_id none_at =
    ap (λ (o : Option ℕ). elim o [ none ↦ null | some i ↦ s.task_table i ])
      (first_from-absent (held s task_id) 0 max_tasks none_at)

-- the slot of a task that has been found
pub record Slot (s : TaskSystem) (task_id : ℕ) (p : Ptr) : Type 0 where
  pub slot : ℕ
  pub first : IsFirst (held s task_id) 0 max_tasks slot
  pub at_slot : s.task_table slot ≡ p
  pub id_lem : id_at s p ≡ task_id

pub task_get-Slot :
    (s : TaskSystem) (task_id : ℕ) → task_get s task_id ≢ null → Slot s task_id (task_get s task_id)
task_get-Slot s task_id nz = elim (first_from-Searched (held s task_id) 0 max_tasks) [
  | found k f ↦
      let e = task_get-first s task_id k f in
      record {
        slot = k;
        first = f;
        at_slot = sym e;
        id_lem = ap (id_at s) e ∙ (held-true s task_id k f.passes).1;
      }
  | absent none_at ↦ absurd (nz (task_get-absent s task_id none_at))
]

-- Where the same slots hold the id, and the slots that do are the same, so is what is found.
pub task_get-agree :
    (s s' : TaskSystem) (task_id : ℕ)
    → ((i : ℕ) → i < max_tasks → held s' task_id i ≡ held s task_id i)
    → ((i : ℕ) → i < max_tasks → held s task_id i ≡ true → s'.task_table i ≡ s.task_table i)
    → task_get s' task_id ≡ task_get s task_id
task_get-agree s s' task_id same slots = elim (first_from-Searched (held s task_id) 0 max_tasks) [
  | found k f ↦
      let below : k < max_tasks = omega (arith, f.below) in
      let f' : IsFirst (held s' task_id) 0 max_tasks k = record {
        passes = same k below ∙ f.passes;
        from = f.from;
        below = f.below;
        before = λ j l h. same j (omega (arith, h, below)) ∙ f.before j l h;
      } in
      task_get-first s' task_id k f' ∙ slots k below f.passes ∙ sym (task_get-first s task_id k f)
  | absent none_at ↦
      task_get-absent s' task_id (λ j l h. same j (omega arith) ∙ none_at j l h)
      ∙ sym (task_get-absent s task_id none_at)
]

-- in particular where the table and the ids are the same
pub task_get-same :
    (s s' : TaskSystem) (task_id : ℕ)
    → ((i : ℕ) → s'.task_table i ≡ s.task_table i)
    → ((p : Ptr) → id_at s' p ≡ id_at s p)
    → task_get s' task_id ≡ task_get s task_id
task_get-same s s' task_id table ids =
    task_get-agree s s' task_id (λ i h. rw (table i) (rw (ids (s.task_table i)) refl))
      (λ i h e. table i)

-- A slot with no task, or with a task of another id, does not hold an id.
pub held-false :
    (s : TaskSystem) (task_id i : ℕ)
    → (s.task_table i ≢ null → id_at s (s.task_table i) ≢ task_id)
    → held s task_id i ≡ false
held-false s task_id i off = elim (Bool-cases (held s task_id i)) [
  | inl hit ↦ let (nz, e) = held-true s task_id i hit in absurd (off nz e)
  | inr miss ↦ miss
]

-- The tests of two states agree on a slot that holds the same task with the same id.
pub held-same :
    (s s' : TaskSystem) (task_id i : ℕ)
    → s'.task_table i ≡ s.task_table i
    → (s.task_table i ≢ null → id_at s' (s.task_table i) ≡ id_at s (s.task_table i))
    → held s' task_id i ≡ held s task_id i
held-same s s' task_id i slot ids = elim (Bool-cases (s.task_table i == null)) [
  | inl empty ↦ rw slot (rw empty refl)
  | inr full ↦
      let nz : s.task_table i ≢ null = ==→ne (s.task_table i) null full in
      rw slot (rw (ids nz) refl)
]
