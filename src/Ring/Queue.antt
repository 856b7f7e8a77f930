-- ===== src/Ring/Queue.antt =====
-- What a ring of core/ringbuffer.h promises: a first-in first-out queue of at most `cap` elements.
use box_kernel.Base.{
  ℕ, Bool, true, false, Option, none, some, List, [], ◌∷◌, ◌++◌, leb, if◌then◌else◌, length,
}

module _ {ℓ} {A : Type ℓ} where
  unfoldable pub pop : List A → Option A × List A
  pop [] = (none, [])
  pop (x ∷ q) = (some x, q)

  unfoldable pub push : ℕ → List A → A → Bool × List A
  push cap q x = if leb cap (length q) then (false, q) else (true, q ++ x ∷ [])

-- A call of a client, and what the client sees of it.
pub data Op {ℓ} (A : Type ℓ) : Type ℓ where
  put : A → Op A
  get : Op A

pub data Reply {ℓ} (A : Type ℓ) : Type ℓ where
  stored : Bool → Reply A
  taken : Option A → Reply A

module _ {ℓ} {A : Type ℓ} (cap : ℕ) where
  unfoldable pub run : List A → List (Op A) → List (Reply A) × List A
  run q [] = ([], q)
  run q (put x ∷ ops) =
      let (b, q') = push cap q x in let rest = run q' ops in (stored b ∷ rest.0, rest.1)
  run q (get ∷ ops) = let (out, q') = pop q in let rest = run q' ops in (taken out ∷ rest.0, rest.1)
