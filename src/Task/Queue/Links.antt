-- ===== src/Task/Queue/Links.antt =====
-- What it is for memory to hold a doubly linked list. task.c, the fields `next` and `prev`.
use mathlib.Core.Bool.{false≢true}
use mathlib.Core.Path.{subst}
use box_kernel.Base.{
  ◌≡◌, ◌≢◌, refl, sym, ◌∙◌, ap, Bool, true, false, ◌||◌, List, [], ◌∷◌, ◌++◌, ◌==◌, update,
  update_ne, update_self, arith, Bool-cases, ==_iff, ==→ne, inl, inr,
}
use box_kernel.Task.{Ptr, null, Task, TaskQueue}
use box_kernel.Task.Queue.{set_next, set_prev}

abbrev pub has : Ptr → List Ptr → Bool
has p [] = false
has p (x ∷ xs) = (p == x) || has p xs

-- the first and the last pointer of a list, or another when it is empty
abbrev pub first_or : Ptr → List Ptr → Ptr
first_or p [] = p
first_or p (x ∷ xs) = x

abbrev pub last_or : Ptr → List Ptr → Ptr
last_or p [] = p
last_or p (x ∷ xs) = last_or x xs

-- The tasks `ps`, none at NULL and none twice, are linked in both directions, with `before` in
-- front and `after` behind.
abbrev pub Seg : (Ptr → Task) → Ptr → List Ptr → Ptr → Type 0
Seg m before [] after = Unit
Seg m before (p ∷ ps) after =
    (p ≢ null)
    × (has p ps ≡ false)
    × ((m p).prev ≡ before)
    × ((m p).next ≡ first_or after ps)
    × Seg m p ps after

-- the queue holds the tasks `ps`, in order
pub record Holds (q : TaskQueue) (ps : List Ptr) : Type 0 where
  pub links : Seg q.tasks null ps null
  pub head_lem : q.head ≡ first_or null ps
  pub tail_lem : q.tail ≡ last_or null ps

-- A change of memory at an address outside a list spares it.
pub Seg-frame :
    (m m' : Ptr → Task) (before after : Ptr) (ps : List Ptr)
    → ((p : Ptr) → has p ps ≡ true → ((m' p).next ≡ (m p).next) × ((m' p).prev ≡ (m p).prev))
    → Seg m before ps after
    → Seg m' before ps after
Seg-frame m m' before after [] same s = tt
Seg-frame m m' before after (p ∷ ps) same (nz, out, back, on, rest) =
    let (next, prev) = same p (ground arith) in
    (nz, out, prev ∙ back, next ∙ on, Seg-frame m m' p after ps (λ x h. same x (ground arith)) rest)

pub has-append : (p : Ptr) (xs ys : List Ptr) → has p (xs ++ ys) ≡ (has p xs || has p ys)
has-append p [] ys = refl
has-append p (x ∷ xs) ys = ground (arith, has-append p xs ys)

pub has-snoc : (z p : Ptr) (ps : List Ptr) → has z (ps ++ p ∷ []) ≡ true → has z (p ∷ ps) ≡ true
has-snoc z p ps in' = ground (arith, has-append z ps (p ∷ []), in')

pub first_or-append :
    (p : Ptr) (xs ys : List Ptr) → first_or p (xs ++ ys) ≡ first_or (first_or p ys) xs
first_or-append p [] ys = refl
first_or-append p (x ∷ xs) ys = refl

pub last_or-append : (p : Ptr) (xs ys : List Ptr) → last_or p (xs ++ ys) ≡ last_or (last_or p xs) ys
last_or-append p [] ys = refl
last_or-append p (x ∷ xs) ys = last_or-append x xs ys

pub has-last_or : (x : Ptr) (xs : List Ptr) → has (last_or x xs) (x ∷ xs) ≡ true
has-last_or x [] = ground arith
has-last_or x (y ∷ xs) = ground (arith, has-last_or y xs)

abbrev pub Apart : List Ptr → List Ptr → Type 0
Apart xs ys = (p : Ptr) → has p xs ≡ true → has p ys ≡ false

-- Two lists with nothing in common follow one another.
pub Seg-append :
    (m : Ptr → Task) (before after : Ptr) (ps qs : List Ptr)
    → Apart ps qs
    → Seg m before ps (first_or after qs)
    → Seg m (last_or before ps) qs after
    → Seg m before (ps ++ qs) after
Seg-append m before after [] qs apart s t = t
Seg-append m before after (p ∷ ps) qs apart (nz, out, back, on, rest) t = (
  nz,
  has-append p ps qs ∙ ground (arith, out, apart p),
  back,
  on ∙ sym (first_or-append after ps qs),
  Seg-append m p after ps qs (λ x h. apart x (ground arith)) rest t,
)

-- and the converse
pub Seg-split :
    (m : Ptr → Task) (before after : Ptr) (ps qs : List Ptr)
    → Seg m before (ps ++ qs) after
    → Apart ps qs × Seg m before ps (first_or after qs) × Seg m (last_or before ps) qs after
Seg-split m before after [] qs s = (λ p h. absurd (ground (arith, h)), tt, s)
Seg-split m before after (p ∷ ps) qs (nz, out, back, on, rest) =
    let (apart, s, t) = Seg-split m p after ps qs rest in
    (
      λ x h. ground (arith, has-append p ps qs, out, apart x),
      (nz, ground (arith, has-append p ps qs, out), back, on ∙ first_or-append after ps qs, s),
      t,
    )

-- a task of a list is not at NULL
pub Seg-ne-null :
    (m : Ptr → Task) (before after p : Ptr) (ps : List Ptr)
    → Seg m before ps after
    → has p ps ≡ true
    → p ≢ null
Seg-ne-null m before after p [] s h = absurd (ground (arith, h))
Seg-ne-null m before after p (x ∷ xs) (nz, _, _, _, rest) h =
    ground (arith, nz, Seg-ne-null m x after p xs rest)

pub ne_of_has : (p q : Ptr) (xs : List Ptr) → has p xs ≡ false → has q xs ≡ true → q ≢ p
ne_of_has p q xs out in' e = false≢true (sym out ∙ ap (λ x. has x xs) (sym e) ∙ in')

pub same_links : {t u : Task} → t ≡ u → (t.next ≡ u.next) × (t.prev ≡ u.prev)
same_links e = (ap (λ (t : Task). t.next) e, ap (λ (t : Task). t.prev) e)

-- Pointing the last task of a list elsewhere.
pub Seg-set_next :
    (m : Ptr → Task) (before after after' : Ptr) (ps : List Ptr)
    → Seg m before ps after
    → Seg (set_next m (last_or before ps) after') before ps after'
Seg-set_next m before after after' [] s = tt
Seg-set_next m before after after' (p ∷ []) (nz, out, back, on, rest) =
    (nz, out, ground (arith, back), ground arith, tt)
Seg-set_next m before after after' (p ∷ x ∷ ps) (nz, out, back, on, rest) =
    let last = last_or x ps in
    let same : set_next m last after' p ≡ m p =
      update_ne m last p _ (ne_of_has p last (x ∷ ps) out (has-last_or x ps)) in
    (
      nz,
      out,
      ap (λ (t : Task). t.prev) same ∙ back,
      ap (λ (t : Task). t.next) same ∙ on,
      Seg-set_next m p after after' (x ∷ ps) rest,
    )

-- Pointing the first task of a list elsewhere.
pub Seg-set_prev :
    (m : Ptr → Task) (before before' after : Ptr) (ps : List Ptr)
    → Seg m before ps after
    → Seg (set_prev m (first_or null ps) before') before' ps after
Seg-set_prev m before before' after [] s = tt
Seg-set_prev m before before' after (p ∷ ps) (nz, out, back, on, rest) = (
  nz,
  out,
  ground arith,
  ground (arith, on),
  Seg-frame m (set_prev m p before') p after ps (λ x h. (ground arith, ground (arith, out))) rest,
)

-- Writing both links of one task spares the others.
pub own_links-same :
    (m : Ptr → Task) (t n p x : Ptr)
    → x ≢ t
    → ((set_prev (set_next m t n) t p x).next ≡ (m x).next)
      × ((set_prev (set_next m t n) t p x).prev ≡ (m x).prev)
own_links-same m t n p x off =
    let off' : t ≢ x = λ e. off (sym e) in
    same_links (update_ne (set_next m t n) t x _ off' ∙ update_ne m t x _ off')

-- Writing a task without its links spares all links.
pub update-links :
    (m : Ptr → Task) (p : Ptr) (t : Task) (x : Ptr)
    → t.next ≡ (m p).next
    → t.prev ≡ (m p).prev
    → ((update m p t x).next ≡ (m x).next) × ((update m p t x).prev ≡ (m x).prev)
update-links m p t x next prev = elim (Bool-cases (p == x)) [
  | inl here ↦
      let (n, b) = same_links (update_self m p t) in
      subst (λ x. ((update m p t x).next ≡ (m x).next) × ((update m p t x).prev ≡ (m x).prev))
        ((==_iff p x).0 here) (n ∙ next, b ∙ prev)
  | inr off ↦ same_links (update_ne m p x t (==→ne p x off))
]

pub Holds-update :
    (q : TaskQueue) (ps : List Ptr) (p : Ptr) (t : Task)
    → t.next ≡ (q.tasks p).next
    → t.prev ≡ (q.tasks p).prev
    → Holds q ps
    → Holds (record q { tasks = update q.tasks p t }) ps
Holds-update q ps p t next prev h = record {
  links =
      Seg-frame q.tasks (update q.tasks p t) null null ps
        (λ x in'. update-links q.tasks p t x next prev) h.links;
  head_lem = h.head_lem;
  tail_lem = h.tail_lem;
}

-- Writing a task outside the queue spares it.
pub Holds-update_ne :
    (q : TaskQueue) (ps : List Ptr) (p : Ptr) (t : Task)
    → has p ps ≡ false
    → Holds q ps
    → Holds (record q { tasks = update q.tasks p t }) ps
Holds-update_ne q ps p t out h = record {
  links =
      Seg-frame q.tasks (update q.tasks p t) null null ps
        (λ x in'. same_links (update_ne q.tasks p x t (λ e. ne_of_has p x ps out in' (sym e))))
        h.links;
  head_lem = h.head_lem;
  tail_lem = h.tail_lem;
}

-- With two tasks or more the tail is a task, and not the head.
pub Holds-tail :
    (q : TaskQueue) (p x : Ptr) (ps : List Ptr)
    → Holds q (p ∷ x ∷ ps)
    → (q.tail ≢ null) × (q.tail ≢ p)
Holds-tail q p x ps h =
    let (nz, out, back, on, rest) = h.links in
    let in' = has-last_or x ps in
    (
      λ e. Seg-ne-null q.tasks p null (last_or x ps) (x ∷ ps) rest in' (sym h.tail_lem ∙ e),
      λ e. ne_of_has p (last_or x ps) (x ∷ ps) out in' (sym h.tail_lem ∙ e),
    )
