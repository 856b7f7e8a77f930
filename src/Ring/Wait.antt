-- ===== src/Ring/Wait.antt =====
-- The bounded wait of the Receiver and of Center for room in a ring:
-- `while (!push(ring, x)) { cpu_pause(); if (--timeout == 0) … }`.
use native.Mathlib.Decide.{dec_lt}
use box_kernel.Base.{
  ℕ, zero, suc, ◌≡◌, ◌≢◌, ◌<◌, refl, sym, ◌∙◌, ap, append-nil, append_assoc, Bool, true, false,
  arith, List, [], ◌∷◌, ◌++◌, length, if◌then◌else◌,
}
use box_kernel.Ring.{RingBuffer, ring_push}
use box_kernel.Ring.Inv.{IsRingSize, IsValid, ring_push-IsValid}
use box_kernel.Ring.Refine.{contents}
use box_kernel.Ring.Batch.{ring_push-append, ring_push-full}

-- `timeout = 1000000`
abbrev pub push_timeout : ℕ
push_timeout = 1_000_000

-- At most `tries` pushes. What the other processors do to the ring during a `cpu_pause()` is the
-- function `pause`, which is given the number of tries left.
module _ {ℓ} {A : Type ℓ} (size : ℕ) (pause : ℕ → RingBuffer A → RingBuffer A) where
  unfoldable pub push_wait : ℕ → RingBuffer A → A → Bool × RingBuffer A
  push_wait zero r x = (false, r)
  push_wait (suc tries) r x =
      let (ok, r') = ring_push size r x in
      let rest = push_wait tries (pause tries r') x in if ok then (true, r') else rest

-- What a pause may do: the consumer takes elements off the front.
pub record IsConsumer {ℓ} {A : Type ℓ} (size : ℕ) (pause : ℕ → RingBuffer A → RingBuffer A)
    : Type ℓ where
  pub keeps : (n : ℕ) (r : RingBuffer A) → IsValid size r → IsValid size (pause n r)
  pub takes :
      (n : ℕ) (r : RingBuffer A)
      → IsValid size r
      → (gone : List A) × (contents size r ≡ gone ++ contents size (pause n r))

module _ {ℓ} {A : Type ℓ} {size : ℕ} (s : IsRingSize size) {pause : ℕ → RingBuffer A → RingBuffer A}
    (c : IsConsumer size pause) where
  -- Against a consumer that only takes from the front, the wait keeps a valid ring valid; when it
  -- succeeds the element is behind what the consumer has left of the ring's contents, and when it
  -- gives up nothing was added.
  pub push_wait_lem :
      (tries : ℕ) {r : RingBuffer A} (x : A)
      → IsValid size r
      → let (ok, r') = push_wait size pause tries r x in
        IsValid size r'
        × ((gone : List A) × (contents size r ++ (if ok then x ∷ [] else [])
              ≡ gone ++ contents size r'))
  unfolding push_wait
  push_wait_lem zero {r} x v = (v, ([], append-nil (contents size r)))
  push_wait_lem (suc tries) {r} x v = elim (dec_lt (length (contents size r)) size) [
    | yes h ↦ let (ok, e) = ring_push-append s x v h in rw ok (ring_push-IsValid s x v, ([], sym e))
    | no h ↦
        let full = (ring_push size r x).1 in
        let (refused, same) = ring_push-full s x v (omega arith) in
        let valid : IsValid size full = ring_push-IsValid s x v in
        let (gone, left) = c.takes tries full valid in
        let (valid', rest) = push_wait_lem tries x (c.keeps tries full valid) in
        rw refused (
          valid',
          (
            gone ++ rest.0,
            ap (λ q. q ++ added (push_wait size pause tries (pause tries full) x).0)
                  (sym same ∙ left)
                ∙ append_assoc gone _ _
                ∙ ap (λ q. gone ++ q) rest.1
                ∙ sym (append_assoc gone rest.0 _),
          ),
        )
  ]
    where
      added : Bool → List A
      added ok = if ok then x ∷ [] else []

module _ {ℓ} {A : Type ℓ} {size : ℕ} (s : IsRingSize size)
    (pause : ℕ → RingBuffer A → RingBuffer A) where
  -- With room in the ring the first try succeeds.
  pub push_wait-room :
      (tries : ℕ) {r : RingBuffer A} (x : A)
      → tries ≢ 0
      → IsValid size r
      → length (contents size r) < size
      → let (ok, r') = push_wait size pause tries r x in
        (ok ≡ true) × (contents size r' ≡ contents size r ++ x ∷ [])
  unfolding push_wait
  push_wait-room zero x some' v h = absurd (some' refl)
  push_wait-room (suc tries) x some' v h = let (ok, e) = ring_push-append s x v h in rw ok (refl, e)
