-- ===== src/Tests/Rings.antt =====
-- Runs of the rings, across the wrap of their counters.
use box_kernel.Base.{ℕ, ◌≡◌, refl, true, List, [], ◌∷◌, none, some}
use box_kernel.Ring.{RingBuffer, deck_queue_size, ring_count}
use box_kernel.Ring.Inv
use box_kernel.Ring.Inv.{ring_buffer_size-IsRingSize, deck_queue_size-IsRingSize, slot_index-lt}
use box_kernel.Ring.Queue
use box_kernel.Ring.Queue.{Op, Reply, put, get, stored, taken}
use box_kernel.Ring.Refine
use box_kernel.Ring.Refine.{contents, run_refines}
use box_kernel.Tests.Data.{wrapped, wrapped-IsValid, packed}

abbrev five : ℕ
five = 5

abbrev fives : RingBuffer ℕ
fives = wrapped five

abbrev full : RingBuffer ℕ
full = packed five

abbrev script : List (Op ℕ)
script = put 8 ∷ get ∷ get ∷ get ∷ get ∷ []

contents-wrapped : contents deck_queue_size fives ≡ 5 ∷ 5 ∷ []
unfolding ring_count
contents-wrapped = refl

run_refines_example :
    let (replies, r') = Refine.run deck_queue_size fives script in
    (◌≡◌ {A = List (Reply ℕ) × List ℕ}
      (replies, contents deck_queue_size r')
      (stored true ∷ taken (some 5) ∷ taken (some 5) ∷ taken (some 8) ∷ taken none ∷ [], []))
    × Inv.IsValid deck_queue_size r'
unfolding ring_count Queue.run Queue.push Queue.pop
run_refines_example = run_refines deck_queue_size-IsRingSize script (wrapped-IsValid five)
