-- ===== src/Task/Queue/Dequeue.antt =====
-- A task leaves the scheduler's queue. task.c, `scheduler_dequeue`.
use box_kernel.Base.{
  ◌≡◌, ◌≢◌, refl, sym, ◌∙◌, inl, inr, true, false, List, [], ◌∷◌, ◌++◌, ◌==◌, ne→==, update_ne,
  update_self, arith, Bool-cases,
}
use box_kernel.Task.{Ptr, null, TaskQueue}
use box_kernel.Task.Queue.{set_next, set_prev, bypass_prev, bypass_next, scheduler_dequeue}
use box_kernel.Task.Queue.Links.{
  has, first_or, last_or, Seg, Holds, Apart, Seg-frame, Seg-append, Seg-split, Seg-set_next,
  Seg-set_prev, Seg-ne-null, first_or-append, last_or-append, has-last_or, ne_of_has, same_links,
  own_links-same, has-append,
}

-- the two parts of a queue round the task `t`
record Around (q : TaskQueue) (xs : List Ptr) (t : Ptr) (ys : List Ptr) : Type 0 where
  nonnull : t ≢ null
  before : Seg q.tasks null xs t
  after : Seg q.tasks t ys null
  apart : Apart xs ys
  out_before : has t xs ≡ false
  out_after : has t ys ≡ false
  prev : (q.tasks t).prev ≡ last_or null xs
  next : (q.tasks t).next ≡ first_or null ys
  head : q.head ≡ first_or t xs
  tail : q.tail ≡ last_or t ys

Holds-Around :
    (q : TaskQueue) (xs : List Ptr) (t : Ptr) (ys : List Ptr)
    → Holds q (xs ++ t ∷ ys)
    → Around q xs t ys
Holds-Around q xs t ys h =
    let (apart, before, (nz, out, back, on, after)) =
      Seg-split q.tasks null null xs (t ∷ ys) h.links in
    record {
      nonnull = nz;
      before = before;
      after = after;
      apart = λ p in'. ground (arith, apart p in');
      out_before = elim (Bool-cases (has t xs)) [
        | inl held ↦ absurd (ground (arith, apart t held))
        | inr off ↦ off
      ];
      out_after = out;
      prev = back;
      next = on;
      head = h.head_lem ∙ first_or-append null xs (t ∷ ys);
      tail = h.tail_lem ∙ last_or-append null xs (t ∷ ys);
    }

-- what stands between the two writes
record Bypassed (q : TaskQueue) (xs : List Ptr) (t : Ptr) (ys : List Ptr) : Type 0 where
  before : Seg q.tasks null xs (first_or null ys)
  after : Seg q.tasks t ys null
  prev : (q.tasks t).prev ≡ last_or null xs
  next : (q.tasks t).next ≡ first_or null ys
  head : q.head ≡ first_or (first_or null ys) xs
  tail : q.tail ≡ last_or t ys

bypass_prev-Bypassed :
    (q : TaskQueue) (xs : List Ptr) (t : Ptr) (ys : List Ptr)
    → Around q xs t ys
    → Bypassed (bypass_prev q t) xs t ys
bypass_prev-Bypassed q [] t ys a =
    let none_before : ((q.tasks t).prev == null) ≡ true = ground (arith, a.prev) in
    rw none_before (record {
      before = tt;
      after = a.after;
      prev = a.prev;
      next = a.next;
      head = a.next;
      tail = a.tail;
    })
bypass_prev-Bypassed q (x ∷ xs) t ys a =
    let last = last_or x xs in
    let in' = has-last_or x xs in
    let some_before : ((q.tasks t).prev == null) ≡ false =
      ne→== (q.tasks t).prev null
        (λ e. Seg-ne-null q.tasks null t last (x ∷ xs) a.before in' (sym a.prev ∙ e)) in
    let to = first_or null ys in
    let spared : (p : Ptr) → last ≢ p → set_next q.tasks last to p ≡ q.tasks p =
      λ p off. update_ne q.tasks last p _ off in
    let own = same_links (spared t (ne_of_has t last (x ∷ xs) a.out_before in')) in
    rw some_before (
      rw a.prev (
        rw a.next (record {
          before = Seg-set_next q.tasks null t to (x ∷ xs) a.before;
          after =
              Seg-frame q.tasks (set_next q.tasks last to) t null ys
                (λ p h.
                  same_links (spared p (λ e. ne_of_has last p ys (a.apart last in') h (sym e))))
                a.after;
          prev = own.1 ∙ a.prev;
          next = own.0 ∙ a.next;
          head = a.head;
          tail = a.tail;
        })))

bypass_next-Holds :
    (q : TaskQueue) (xs : List Ptr) (t : Ptr) (ys : List Ptr)
    → Apart xs ys
    → Bypassed q xs t ys
    → Holds (bypass_next q t) (xs ++ ys)
bypass_next-Holds q xs t [] apart b =
    let none_after : ((q.tasks t).next == null) ≡ true = ground (arith, b.next) in
    rw none_after (record {
      links = Seg-append q.tasks null null xs [] apart b.before tt;
      head_lem = b.head ∙ sym (first_or-append null xs []);
      tail_lem = b.prev ∙ sym (last_or-append null xs []);
    })
bypass_next-Holds q xs t (y ∷ ys) apart b =
    let some_after : ((q.tasks t).next == null) ≡ false =
      ne→== (q.tasks t).next null
        (λ e. Seg-ne-null q.tasks t null y (y ∷ ys) b.after (ground arith) (sym b.next ∙ e)) in
    let from = last_or null xs in
    let m = set_prev q.tasks y from in
    let off : (p : Ptr) → has p xs ≡ true → y ≢ p = λ p h e. ground (arith, apart p h, e) in
    let links =
      Seg-append m null null xs (y ∷ ys) apart
        (Seg-frame q.tasks m null y xs (λ p h. same_links (update_ne q.tasks y p _ (off p h)))
          b.before)
        (Seg-set_prev q.tasks t from null (y ∷ ys) b.after) in
    rw some_after (
      rw b.next (
        rw b.prev (record {
          links = links;
          head_lem = b.head ∙ sym (first_or-append null xs (y ∷ ys));
          tail_lem = b.tail ∙ sym (last_or-append null xs (y ∷ ys));
        })))

-- A task that is in the queue leaves it, wherever it stands, and the others keep their order.
pub scheduler_dequeue-Holds :
    (q : TaskQueue) (xs : List Ptr) (t : Ptr) (ys : List Ptr)
    → Holds q (xs ++ t ∷ ys)
    → Holds (scheduler_dequeue q t) (xs ++ ys)
unfolding scheduler_dequeue
scheduler_dequeue-Holds q xs t ys h =
    let a = Holds-Around q xs t ys h in
    let out : has t (xs ++ ys) ≡ false =
      ground (arith, has-append t xs ys, a.out_before, a.out_after) in
    let q' = bypass_next (bypass_prev q t) t in
    let h' =
      bypass_next-Holds (bypass_prev q t) xs t ys a.apart (bypass_prev-Bypassed q xs t ys a) in
    record {
      links =
          Seg-frame q'.tasks (set_prev (set_next q'.tasks t null) t null) null null (xs ++ ys)
            (λ p in'. own_links-same q'.tasks t null null p (ne_of_has t p (xs ++ ys) out in'))
            h'.links;
      head_lem = h'.head_lem;
      tail_lem = h'.tail_lem;
    }

-- A task stands in the queue once.
pub Holds-once :
    (q : TaskQueue) (xs : List Ptr) (t : Ptr) (ys : List Ptr)
    → Holds q (xs ++ t ∷ ys)
    → has t (xs ++ ys) ≡ false
Holds-once q xs t ys h =
    let a = Holds-Around q xs t ys h in
    ground (arith, has-append t xs ys, a.out_before, a.out_after)

-- The task that leaves has no links.
pub scheduler_dequeue-own :
    (q : TaskQueue) (t : Ptr)
    → (((scheduler_dequeue q t).tasks t).next ≡ null)
      × (((scheduler_dequeue q t).tasks t).prev ≡ null)
unfolding scheduler_dequeue
scheduler_dequeue-own q t =
    let m = (bypass_next (bypass_prev q t) t).tasks in
    let (n, b) =
      same_links
        (update_self (set_next m t null) t (record (set_next m t null t) { prev = null })) in
    (n ∙ (same_links (update_self m t (record (m t) { next = null }))).0, b)

-- Removing a task without links leaves no head and no tail, whatever the queue held.
pub scheduler_dequeue-loose :
    (q : TaskQueue) (t : Ptr)
    → (q.tasks t).next ≡ null
    → (q.tasks t).prev ≡ null
    → ((scheduler_dequeue q t).head ≡ null) × ((scheduler_dequeue q t).tail ≡ null)
unfolding scheduler_dequeue
scheduler_dequeue-loose q t next prev =
    let loose : ((q.tasks t).prev == null) ≡ true = rw prev refl in
    let end : ((q.tasks t).next == null) ≡ true = rw next refl in rw loose (rw end (next, prev))
