-- ===== src/Ring/Refine.antt =====
-- A valid ring of core/ringbuffer.h behaves as the bounded queue of the elements that it holds,
-- also when its counters wrap at `2 ^ 64`.
use native.Mathlib.Nat.{mod-lt, mod-eq_of_lt, mod-eq-sub-mod, mod-add-mod, mod-mod_of_dvd}
use native.Mathlib.Decide.{dec_lt}
use mathlib.Core.Path.{ap₂}
use box_kernel.Base.{
  ℕ, zero, suc, ◌+◌, ◌-◌, ◌%◌, ◌<◌, ◌≡◌, ◌≢◌, refl, sym, ◌∙◌, ap, arith, u64, Bool-cases, inl, inr,
  some, ◌==◌, List, [], ◌∷◌, ◌++◌, length, sub64, update, update_self, update_ne,
}
use box_kernel.Ring.{RingBuffer, slot_index, ring_count, ring_push, ring_pop}
use box_kernel.Ring.Inv.{IsRingSize, IsValid, ring_push-IsValid, ring_pop-IsValid}
use box_kernel.Ring.Inv.{slot_index-mod}
use box_kernel.Ring.Queue
use box_kernel.Ring.Queue.{Op, put, get, Reply, stored, taken}

module _ {ℓ} {A : Type ℓ} (size : ℕ) where
  -- the `n` elements from counter `c` on; the counter runs on here
  abbrev pub elements : (ℕ → A) → ℕ → ℕ → List A
  elements slots c zero = []
  elements slots c (suc n) = slots (c % size) ∷ elements slots (c + 1) n

  abbrev pub contents : RingBuffer A → List A
  contents r = elements r.slots r.head (ring_count r)

  -- the calls in order on a ring, with what each returns
  pub run : RingBuffer A → List (Op A) → List (Reply A) × RingBuffer A
  run r [] = ([], r)
  run r (put x ∷ ops) =
      let (ok, r') = ring_push size r x in let rest = run r' ops in (stored ok ∷ rest.0, rest.1)
  run r (get ∷ ops) =
      let (out, r') = ring_pop size r in let rest = run r' ops in (taken out ∷ rest.0, rest.1)

module _ {size : ℕ} (s : IsRingSize size) where
  -- Fewer than `size` steps do not lead back.
  ahead_ne : (c k : ℕ) → suc k < size → (c + suc k) % size ≢ c % size
  ahead_ne c k h e = elim (dec_lt (c % size + suc k) size) [
    | yes below ↦ omega (arith, e, sym (mod-add-mod c size (suc k)), mod-eq_of_lt below)
    | no above ↦ omega (
      arith,
      e,
      sym (mod-add-mod c size (suc k)),
      mod-lt c s.positive,
      mod-eq-sub-mod {n = c % size + suc k} {m = size} (omega arith),
      mod-eq_of_lt {n = c % size + suc k - size} {m = size} (omega (arith, mod-lt c s.positive)),
    )
  ]

module _ {ℓ} {A : Type ℓ} {size : ℕ} (s : IsRingSize size) where
  length-elements : (slots : ℕ → A) (c n : ℕ) → length (elements size slots c n) ≡ n
  length-elements slots c zero = refl
  length-elements slots c (suc n) = ap suc (length-elements slots (c + 1) n)

  -- Only the place of the counter counts.
  elements_cong :
      (slots : ℕ → A) (c d n : ℕ)
      → c % size ≡ d % size
      → elements size slots c n ≡ elements size slots d n
  elements_cong slots c d zero e = refl
  elements_cong slots c d (suc n) e =
      ap₂ ◌∷◌ (ap slots e) (elements_cong slots (c + 1) (d + 1) n next)
    where
      next : (c + 1) % size ≡ (d + 1) % size
      next = sym (mod-add-mod c size 1) ∙ ap (λ (k : ℕ). (k + 1) % size) e ∙ mod-add-mod d size 1

  -- A write just behind the last element appends.
  elements-update :
      (slots : ℕ → A) (c n i : ℕ) (x : A)
      → n < size
      → i ≡ (c + n) % size
      → elements size (update slots i x) c (suc n) ≡ elements size slots c n ++ x ∷ []
  elements-update slots c zero i x h e =
      let here : i ≡ c % size = e ∙ ap (λ (k : ℕ). k % size) (omega arith) in
      rw (here, update_self slots (c % size) x)
  elements-update slots c (suc n) i x h e =
      ap₂ ◌∷◌ (update_ne slots i (c % size) x (λ q. ahead_ne s c n h (sym e ∙ q))) (
        elements-update slots (c + 1) n i x (omega arith)
          (e ∙ ap (λ (k : ℕ). k % size) (omega arith)))

  -- `elements` matches on the count, the code compares the counters
  elements_of_ne_zero :
      (slots : ℕ → A) (c n : ℕ)
      → n ≢ 0
      → elements size slots c n ≡ slots (c % size) ∷ elements size slots (c + 1) (n - 1)
  elements_of_ne_zero slots c zero h = absurd (h refl)
  elements_of_ne_zero slots c (suc n) h =
      ap (λ (k : ℕ). elements size slots c (suc k)) (omega arith)

  pub length-contents : (r : RingBuffer A) → length (contents size r) ≡ ring_count r
  length-contents r = length-elements r.slots r.head (ring_count r)

  -- The slot that a push writes lies just behind the contents.
  tail_slot :
      {r : RingBuffer A} → IsValid size r → slot_index size r.tail ≡ (r.head + ring_count r) % size
  unfolding ring_count
  tail_slot {r} v =
      slot_index-mod s r.tail
      ∙ ap (λ (n : ℕ). n % size) (sym wrapped)
      ∙ mod-mod_of_dvd size (r.head + sub64 r.tail r.head) s.divides
    where
      wrapped : u64 (r.head + sub64 r.tail r.head) ≡ r.tail
      wrapped = omega arith

  -- `event_ring_push` returns what the queue's push returns, and leaves the ring holding its queue.
  pub ring_push_refines :
      {r : RingBuffer A} (x : A)
      → IsValid size r
      → let (ok, r') = ring_push size r x in
        (ok, contents size r') ≡ Queue.push size (contents size r) x
  unfolding ring_push ring_count Queue.push
  ring_push_refines {r} x v =
      let n = sub64 r.tail r.head in
      ground (
        arith,
        s.small,
        length-contents r,
        elements-update r.slots r.head n (slot_index size r.tail) x,
        tail_slot v,
      )

  -- `event_ring_pop` returns what the queue's pop returns, and leaves the ring holding the rest.
  pub ring_pop_refines :
      {r : RingBuffer A}
      → IsValid size r
      → let (out, r') = ring_pop size r in (out, contents size r') ≡ Queue.pop (contents size r)
  unfolding ring_pop ring_count Queue.pop
  ring_pop_refines {r} v = elim (Bool-cases (r.head == r.tail)) [
    | inl e ↦ let none_left : sub64 r.tail r.head ≡ 0 = ground arith in rw (e, none_left)
    | inr e ↦
        let some_left : sub64 r.tail r.head ≢ 0 = ground arith in
        rw (e, elements_of_ne_zero r.slots r.head (sub64 r.tail r.head) some_left)
          (ap₂ (λ i q. (some (r.slots i), q)) (slot_index-mod s r.head) (rest (ground arith)))
  ]
    where
      rest :
          sub64 r.tail (u64 (r.head + 1)) ≡ sub64 r.tail r.head - 1
          → elements size r.slots (u64 (r.head + 1)) (sub64 r.tail (u64 (r.head + 1)))
            ≡ elements size r.slots (r.head + 1) (sub64 r.tail r.head - 1)
      rest fewer =
          ap (λ n. elements size r.slots (u64 (r.head + 1)) n) fewer
          ∙ elements_cong r.slots (u64 (r.head + 1)) (r.head + 1) (sub64 r.tail r.head - 1)
              (mod-mod_of_dvd size (r.head + 1) s.divides)

  -- No sequence of pushes and pops tells a valid ring from the bounded queue of its contents, and
  -- the ring stays valid and keeps holding that queue.
  pub run_refines :
      (ops : List (Op A)) {r : RingBuffer A}
      → IsValid size r
      → let (replies, r') = run size r ops in
        ((replies, contents size r') ≡ Queue.run size (contents size r) ops) × IsValid size r'
  unfolding run Queue.run
  run_refines [] v = (refl, v)
  run_refines (put x ∷ ops) {r} v =
      let (replies, valid) = run_refines ops (ring_push-IsValid s x v) in
      rw (← ring_push_refines x v)
        (ap (λ q. (stored (ring_push size r x).0 ∷ q.0, q.1)) replies, valid)
  run_refines (get ∷ ops) {r} v =
      let (replies, valid) = run_refines ops (ring_pop-IsValid s v) in
      rw (← ring_pop_refines v) (ap (λ q. (taken (ring_pop size r).0 ∷ q.0, q.1)) replies, valid)
