-- ===== src/Task/Queue/Enqueue.antt =====
-- A task enters the scheduler's queue. task.c, `scheduler_enqueue`.
use mathlib.Core.Path.{subst}
use box_kernel.Base.{
  ◌≡◌, ◌≢◌, refl, sym, ◌∙◌, true, false, List, [], ◌∷◌, ◌++◌, ◌==◌, ne→==, update_ne, arith,
}
use box_kernel.Task.{Ptr, null, Task, TaskQueue}
use box_kernel.Task.Queue.{set_next, set_prev, scheduler_enqueue}
use box_kernel.Task.Queue.Links.{
  same_links, own_links-same, has, last_or, Seg, Holds, Apart, Seg-frame, Seg-append, Seg-set_next,
  Seg-ne-null, last_or-append, has-last_or, ne_of_has,
}

-- the task's own two links are written first
abbrev fresh_links : TaskQueue → Ptr → Ptr → Task
fresh_links q t = set_prev (set_next q.tasks t null) t q.tail

new_links :
    (q : TaskQueue) (t : Ptr)
    → q.tail ≢ t
    → ((set_next (fresh_links q t) q.tail t t).next ≡ null)
      × ((set_next (fresh_links q t) q.tail t t).prev ≡ q.tail)
new_links q t off =
    let (next, prev) = same_links (update_ne (fresh_links q t) q.tail t _ off) in
    (next ∙ ground arith, prev ∙ ground arith)

-- A task that is not in the queue enters it at the end, and the others keep their order.
pub scheduler_enqueue-Holds :
    (q : TaskQueue) (ps : List Ptr) (t : Ptr)
    → Holds q ps
    → t ≢ null
    → has t ps ≡ false
    → Holds (scheduler_enqueue q t) (ps ++ t ∷ [])
unfolding scheduler_enqueue
scheduler_enqueue-Holds q [] t h nz out =
    let empty : (q.tail == null) ≡ true = ground (arith, h.tail_lem) in
    rw empty (record {
      links = (nz, refl, ground (arith, h.tail_lem), ground arith, tt);
      head_lem = refl;
      tail_lem = refl;
    })
scheduler_enqueue-Holds q (p ∷ ps) t h nz out =
    let last = last_or p ps in
    let some_last : last ≢ null =
      Seg-ne-null q.tasks null null last (p ∷ ps) h.links (has-last_or p ps) in
    let tail : q.tail ≡ last = h.tail_lem in
    let full : (q.tail == null) ≡ false = ne→== q.tail null (λ e. some_last (sym tail ∙ e)) in
    let m = fresh_links q t in
    let apart : Apart (p ∷ ps) (t ∷ []) = λ x in'. ground (arith, ne_of_has t x (p ∷ ps) out in') in
    let spared : Seg m null (p ∷ ps) null =
      Seg-frame q.tasks m null null (p ∷ ps)
        (λ x in'. own_links-same q.tasks t null q.tail x (ne_of_has t x (p ∷ ps) out in'))
        h.links in
    let front : Seg (set_next m q.tail t) null (p ∷ ps) t =
      subst (λ l. Seg (set_next m l t) null (p ∷ ps) t) (sym tail)
        (Seg-set_next m null null t (p ∷ ps) spared) in
    let off : q.tail ≢ t = λ e. ne_of_has t last (p ∷ ps) out (has-last_or p ps) (sym tail ∙ e) in
    let (next, prev) = new_links q t off in
    rw full (record {
      links =
          Seg-append (set_next m q.tail t) null null (p ∷ ps) (t ∷ []) apart front
            (nz, refl, prev ∙ tail, next, tt);
      head_lem = h.head_lem;
      tail_lem = sym (last_or-append p ps (t ∷ []));
    })

-- The task that enters is behind all others, and the head stays.
pub scheduler_enqueue-own :
    (q : TaskQueue) (t : Ptr)
    → q.tail ≢ null
    → q.tail ≢ t
    → (((scheduler_enqueue q t).tasks t).next ≡ null) × ((scheduler_enqueue q t).head ≡ q.head)
unfolding scheduler_enqueue
scheduler_enqueue-own q t full off = rw (ne→== q.tail null full) ((new_links q t off).0, refl)
