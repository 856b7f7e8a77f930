-- ===== src/Task/Group/Membership.antt =====
-- A task joins a group and leaves it: task.c, `task_group_add` and `task_group_remove`.
use mathlib.Core.Bool.{false≢true}
use box_kernel.Base.{
  ℕ, ◌+◌, ◌<◌, ◌≡◌, ◌≢◌, refl, sym, ◌∙◌, ap, inl, inr, Bool, true, false, Option, none, some, [],
  ◌∷◌, ◌++◌, lt→ltb, ◌==◌, ==_iff, ==→ne, ne→==, Bool-cases, update, update_ne, update_self,
  first_from, first_from-first, arith,
}
use box_kernel.Task.{Ptr, null, max_task_groups, Task, TaskGroup, TaskSystem}
use box_kernel.Task.Table.{task_get}
use box_kernel.Task.Control.{deref}
use box_kernel.Task.Group.{
  has_id, has_room, with_member, without_member, is_member, task_group_max_tasks, joined, left_by,
  task_group_add, task_group_remove,
}
use box_kernel.Task.Group.Members.{
  members, elem, remove_first, without_member_lem, members-with_member, elem-snoc,
  remove_first-snoc,
}

-- the slot `i` is the only one whose group has the id
pub record IsGroupAt (s : TaskSystem) (group_id i : ℕ) : Type 0 where
  pub below : i < max_task_groups
  pub at_slot : (s.task_groups i).group_id ≡ group_id
  pub alone : (j : ℕ) → j < max_task_groups → (s.task_groups j).group_id ≡ group_id → j ≡ i

-- A loop whose test only groups with the id pass stops at that slot.
first-IsGroupAt :
    (s : TaskSystem) (group_id i : ℕ) (test : TaskGroup → Bool)
    → IsGroupAt s group_id i
    → ((g : TaskGroup) → test g ≡ true → g.group_id ≡ group_id)
    → test (s.task_groups i) ≡ true
    → first_from (λ j. test (s.task_groups j)) 0 max_task_groups ≡ some i
first-IsGroupAt s group_id i test g only hit =
    first_from-first (λ j. test (s.task_groups j)) 0 max_task_groups i
      (record {
        passes = hit;
        from = omega arith;
        below = omega (arith, g.below);
        before = λ j l h. elim (Bool-cases (test (s.task_groups j))) [
          | inl hit' ↦
              let e = g.alone j (omega (arith, g.below, h)) (only (s.task_groups j) hit') in
              absurd (omega (arith, e, h))
          | inr miss ↦ miss
        ];
      })

IsGroupAt-update :
    (s s' : TaskSystem) (group_id i : ℕ) (g' : TaskGroup)
    → g'.group_id ≡ group_id
    → s'.task_groups ≡ update s.task_groups i g'
    → IsGroupAt s group_id i
    → IsGroupAt s' group_id i
IsGroupAt-update s s' group_id i g' id e g = record {
  below = g.below;
  at_slot =
      ap (λ (h : ℕ → TaskGroup). (h i).group_id) e
      ∙ ap (λ (g : TaskGroup). g.group_id) (update_self s.task_groups i g')
      ∙ id;
  alone = λ j h same. elim (Bool-cases (i == j)) [
    | inl here ↦ sym ((==_iff i j).0 here)
    | inr off ↦
        let kept : s'.task_groups j ≡ s.task_groups j =
          ap (λ (h : ℕ → TaskGroup). h j) e ∙ update_ne s.task_groups i j g' (==→ne i j off) in
        g.alone j h (sym (ap (λ (g : TaskGroup). g.group_id) kept) ∙ same)
  ];
}

has_id_iff : (group_id : ℕ) (g : TaskGroup) → has_id group_id g ≡ true → g.group_id ≡ group_id
has_id_iff group_id g h = (==_iff g.group_id group_id).0 h

is_member-some :
    (group_id task_id : ℕ) (g : TaskGroup) (o : Option TaskGroup)
    → without_member g task_id ≡ o
    → is_member group_id task_id g ≡ elim o [ none ↦ false | some g' ↦ has_id group_id g ]
is_member-some group_id task_id g o e =
    ap (λ (o : Option TaskGroup). elim o [ none ↦ false | some g' ↦ has_id group_id g ]) e

is_member_iff :
    (group_id task_id : ℕ) (g : TaskGroup)
    → is_member group_id task_id g ≡ true
    → g.group_id ≡ group_id
is_member_iff group_id task_id g h = elim (without_member_lem g task_id) [
  | inl (_, (g', e, _, _, _)) ↦
      has_id_iff group_id g (sym (is_member-some group_id task_id g (some g') e) ∙ h)
  | inr (_, e) ↦ absurd (false≢true (sym (is_member-some group_id task_id g none e) ∙ h))
]

task_group_add-some :
    (s : TaskSystem) (group_id task_id i : ℕ)
    → IsGroupAt s group_id i
    → (s.task_groups i).task_count < task_group_max_tasks
    → task_get s task_id ≢ null
    → task_group_add s group_id task_id ≡ (true, joined s group_id task_id i)
unfolding task_group_add
task_group_add-some s group_id task_id i g room nz =
    let id : has_id group_id (s.task_groups i) ≡ true = (==_iff _ _).1 g.at_slot in
    let hit : has_room group_id (s.task_groups i) ≡ true =
      rw id (lt→ltb (s.task_groups i).task_count task_group_max_tasks room) in
    let search =
      first-IsGroupAt s group_id i (has_room group_id) g
        (λ h b. has_id_iff group_id h (ground (arith, b))) hit in
    rw (ne→== (task_get s task_id) null nz) (
      ap
        (λ (o : Option ℕ). elim o [
          | none ↦ (false, s)
          | some i ↦ (true, joined s group_id task_id i)
        ])
        search)

-- A task that is found joins a group with room: it is the last member, and the task has the group's
-- id. The group stays where it is, and the other slots stay as they are.
pub task_group_add_lem :
    (s : TaskSystem) (group_id task_id i : ℕ)
    → IsGroupAt s group_id i
    → (s.task_groups i).task_count < task_group_max_tasks
    → task_get s task_id ≢ null
    → let r = task_group_add s group_id task_id in
      (r.0 ≡ true)
      × (members (r.1.task_groups i) ≡ members (s.task_groups i) ++ task_id ∷ [])
      × ((deref r.1 (task_get s task_id)).group_id ≡ group_id)
      × IsGroupAt r.1 group_id i
      × ((j : ℕ) → i ≢ j → r.1.task_groups j ≡ s.task_groups j)
task_group_add_lem s group_id task_id i g room nz =
    let p = task_get s task_id in
    let grown = with_member (s.task_groups i) task_id in
    rw (task_group_add-some s group_id task_id i g room nz) (
      refl,
      ap members (update_self s.task_groups i grown)
          ∙ members-with_member (s.task_groups i) task_id,
      ap (λ (t : Task). t.group_id)
          (update_self s.queue.tasks p (record (deref s p) { group_id = group_id })),
      IsGroupAt-update s (joined s group_id task_id i) group_id i grown g.at_slot refl g,
      λ j off. update_ne s.task_groups i j grown off,
    )

task_group_remove-some :
    (s : TaskSystem) (group_id task_id i : ℕ) (g' : TaskGroup)
    → IsGroupAt s group_id i
    → without_member (s.task_groups i) task_id ≡ some g'
    → task_group_remove s group_id task_id
      ≡ (true, record s { task_groups = update s.task_groups i g' })
unfolding task_group_remove
task_group_remove-some s group_id task_id i g' g some_member =
    let id : has_id group_id (s.task_groups i) ≡ true = (==_iff _ _).1 g.at_slot in
    let hit : is_member group_id task_id (s.task_groups i) ≡ true =
      is_member-some group_id task_id (s.task_groups i) (some g') some_member ∙ id in
    let search =
      first-IsGroupAt s group_id i (is_member group_id task_id) g (is_member_iff group_id task_id)
        hit in
    ap (λ (o : Option ℕ). elim o [ none ↦ (false, s) | some i ↦ left_by s task_id i ]) search
    ∙ ap
        (λ (o : Option TaskGroup). elim o [
          | none ↦ (false, s)
          | some g ↦ (true, record s { task_groups = update s.task_groups i g })
        ])
        some_member

-- A member leaves its group: its first entry goes, and the others keep their order.
pub task_group_remove_lem :
    (s : TaskSystem) (group_id task_id i : ℕ)
    → IsGroupAt s group_id i
    → elem task_id (members (s.task_groups i)) ≡ true
    → let r = task_group_remove s group_id task_id in
      (r.0 ≡ true)
      × (members (r.1.task_groups i) ≡ remove_first task_id (members (s.task_groups i)))
      × ((r.1.task_groups i).task_count + 1 ≡ (s.task_groups i).task_count)
      × IsGroupAt r.1 group_id i
      × ((j : ℕ) → i ≢ j → r.1.task_groups j ≡ s.task_groups j)
      × ((p : Ptr) → deref r.1 p ≡ deref s p)
task_group_remove_lem s group_id task_id i g in' =
    elim (without_member_lem (s.task_groups i) task_id) [
      | inl (_, (g', e, ms, count, id)) ↦
          let here = update_self s.task_groups i g' in
          let s' : TaskSystem = record s { task_groups = update s.task_groups i g' } in
          rw (task_group_remove-some s group_id task_id i g' g e) (
            refl,
            ap members here ∙ ms,
            ap (λ (g : TaskGroup). g.task_count + 1) here ∙ count,
            IsGroupAt-update s s' group_id i g' (id ∙ g.at_slot) refl g,
            λ j off. update_ne s.task_groups i j g' off,
            λ p. refl,
          )
      | inr (out, _) ↦ absurd (false≢true (sym out ∙ in'))
    ]

-- A task that is found joins a group that has room and whose id no other slot has, and leaves it
-- again: the members are as they were, where it was not one of them before. The task itself keeps
-- the id of the group.
pub task_group_remove-task_group_add :
    (s : TaskSystem) (group_id task_id i : ℕ)
    → IsGroupAt s group_id i
    → (s.task_groups i).task_count < task_group_max_tasks
    → task_get s task_id ≢ null
    → elem task_id (members (s.task_groups i)) ≡ false
    → let r = task_group_remove (task_group_add s group_id task_id).1 group_id task_id in
      (r.0 ≡ true)
      × (members (r.1.task_groups i) ≡ members (s.task_groups i))
      × ((deref r.1 (task_get s task_id)).group_id ≡ group_id)
task_group_remove-task_group_add s group_id task_id i g room nz out =
    let s' = (task_group_add s group_id task_id).1 in
    let ms = members (s.task_groups i) in
    let p = task_get s task_id in
    let (ok, grown, id, g', others) = task_group_add_lem s group_id task_id i g room nz in
    let (ok', shrunk, count, g'', others', same) =
      task_group_remove_lem s' group_id task_id i g'
        (ap (elem task_id) grown ∙ elem-snoc task_id ms) in
    (
      ok',
      shrunk ∙ ap (remove_first task_id) grown ∙ remove_first-snoc task_id ms out,
      ap (λ (t : Task). t.group_id) (same p) ∙ id,
    )
