-- ===== src/Ring/Batch.antt =====
-- `event_ring_push_batch` and `event_ring_pop_batch` of core/ringbuffer.h.
use native.Mathlib.Decide.{dec_lt}
use mathlib.Core.Path.{ap₂}
use box_kernel.Base.{
  ℕ, zero, suc, ◌-◌, ◌≤◌, ◌<◌, ◌≡◌, ◌≢◌, ◌⊎◌, refl, sym, ap, ◌∙◌, true, false, arith, min, some,
  none, inl, inr, List, [], ◌∷◌, ◌++◌, append-nil, append_assoc, length, length-append, take, drop,
}
use box_kernel.Ring.{RingBuffer, ring_push, ring_pop, ring_push_batch, ring_pop_batch}
use box_kernel.Ring.Inv.{IsRingSize, IsValid, ring_push-IsValid, ring_pop-IsValid}
use box_kernel.Ring.Queue
use box_kernel.Ring.Refine.{contents, ring_push_refines, ring_pop_refines}

module _ {ℓ} {A : Type ℓ} where
  take-cons : (n : ℕ) (x : A) (xs : List A) → n ≢ 0 → take n (x ∷ xs) ≡ x ∷ take (n - 1) xs
  take-cons zero x xs h = absurd (h refl)
  take-cons (suc n) x xs h = ap (λ k. x ∷ take k xs) (omega arith)

  List-cases : (q : List A) → (q ≡ []) ⊎ ((x : A) × (t : List A) × (q ≡ x ∷ t))
  List-cases [] = inl refl
  List-cases (x ∷ t) = inr (x, t, refl)

  take-nil : (n : ℕ) → take {A = A} n [] ≡ []
  take-nil zero = refl
  take-nil (suc n) = refl

module _ {ℓ} {A : Type ℓ} {size : ℕ} (s : IsRingSize size) where
  -- A push of a ring with room appends, of a full ring changes nothing.
  pub ring_push-append :
      {r : RingBuffer A} (x : A)
      → IsValid size r
      → length (contents size r) < size
      → ((ring_push size r x).0 ≡ true)
        × (contents size (ring_push size r x).1 ≡ contents size r ++ x ∷ [])
  unfolding Queue.push
  ring_push-append {r} x v h = ground (arith, ring_push_refines s x v)

  pub ring_push-full :
      {r : RingBuffer A} (x : A)
      → IsValid size r
      → size ≤ length (contents size r)
      → ((ring_push size r x).0 ≡ false) × (contents size (ring_push size r x).1 ≡ contents size r)
  unfolding Queue.push
  ring_push-full {r} x v h = ground (arith, ring_push_refines s x v)

  -- A batch on a valid ring pushes as many elements as fit, in order, and returns their number.
  pub ring_push_batch_lem :
      (xs : List A) {r : RingBuffer A}
      → IsValid size r
      → let free = size - length (contents size r) in
        let (pushed, r') = ring_push_batch size r xs in
        (pushed ≡ min (length xs) free)
        × (contents size r' ≡ contents size r ++ take free xs)
        × IsValid size r'
  unfolding ring_push_batch
  ring_push_batch_lem [] {r} v = (omega arith, rw (take-nil, append-nil), v)
  ring_push_batch_lem (x ∷ xs) {r} v = elim (dec_lt (length (contents size r)) size) [
    | yes h ↦
        let (ok, appended) = ring_push-append x v h in
        let ih = ring_push_batch_lem xs (ring_push-IsValid s x v) in
        let free = size - length (contents size r) in
        let longer : length (contents size (ring_push size r x).1)
            ≡ suc (length (contents size r)) =
          omega (arith, ap length appended, length-append (contents size r) (x ∷ [])) in
        rw ok (
          omega (arith, ih.0),
          ih.1
              ∙ ap₂ ◌++◌ appended (ap (λ k. take k xs) (omega arith))
              ∙ append_assoc (contents size r) (x ∷ []) (take (free - 1) xs)
              ∙ ap (λ q. contents size r ++ q) (sym (take-cons free x xs (omega arith))),
          ih.2,
        )
    | no h ↦
        let (refused, same) = ring_push-full x v (omega arith) in
        let none_free : size - length (contents size r) ≡ 0 = omega arith in
        rw (refused, none_free)
          (omega arith, same ∙ sym (append-nil (contents size r)), ring_push-IsValid s x v)
  ]

  -- A pop takes the oldest element.
  pub ring_pop-nil :
      {r : RingBuffer A}
      → IsValid size r
      → contents size r ≡ []
      → ((ring_pop size r).0 ≡ none) × (contents size (ring_pop size r).1 ≡ [])
  unfolding Queue.pop
  ring_pop-nil v e =
      let same = ring_pop_refines s v ∙ ap Queue.pop e in (ap (λ p. p.0) same, ap (λ p. p.1) same)

  pub ring_pop-cons :
      {r : RingBuffer A} {x : A} {q : List A}
      → IsValid size r
      → contents size r ≡ x ∷ q
      → ((ring_pop size r).0 ≡ some x) × (contents size (ring_pop size r).1 ≡ q)
  unfolding Queue.pop
  ring_pop-cons v e =
      let same = ring_pop_refines s v ∙ ap Queue.pop e in (ap (λ p. p.0) same, ap (λ p. p.1) same)

  -- A batch from a valid ring takes the oldest elements, as many as asked for and there.
  pub ring_pop_batch_lem :
      (max_count : ℕ) {r : RingBuffer A}
      → IsValid size r
      → let (out, r') = ring_pop_batch size r max_count in
        (out ≡ take max_count (contents size r))
        × (contents size r' ≡ drop max_count (contents size r))
        × IsValid size r'
  unfolding ring_pop_batch Queue.pop
  ring_pop_batch_lem zero v = (refl, refl, v)
  ring_pop_batch_lem (suc n) {r} v = elim (List-cases (contents size r)) [
    | inl e ↦
        let (out, rest) = ring_pop-nil v e in
        rw (out, e, ring_pop_batch) (refl, rest, ring_pop-IsValid s v)
    | inr (x, q, e) ↦
        let (out, rest) = ring_pop-cons v e in
        let ih = ring_pop_batch_lem n (ring_pop-IsValid s v) in
        rw (out, e, ring_pop_batch)
          (ap (λ q. x ∷ q) (ih.0 ∙ ap (take n) rest), ih.1 ∙ ap (drop n) rest, ih.2)
  ]
