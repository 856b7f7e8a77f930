-- ===== src/Center/Route.antt =====
-- Where Center sends an event. center.h, `center_determine_route`.
use mathlib.Core.Path.{subst}
use box_kernel.Base.{
  ℕ, zero, suc, ◌+◌, ◌≤◌, ◌<◌, ◌≡◌, refl, ◌∙◌, Bool, true, false, ◌&&◌, ◌||◌, arith, List, [], ◌∷◌,
  length, ltb, leb, ◌==◌, ==_iff, if◌then◌else◌,
}
use native.Mathlib.Decide.{dec_lt}
use box_kernel.Events.{first_prefix}
use box_kernel.Events.Route.{pending_steps}
use box_kernel.Center.{
  one_of, first_deck, center_determine_route, storage_types, operations_types, hardware_types,
  network_types,
}

abbrev between : ℕ → ℕ → ℕ → Bool
between a b n = leb a n && leb n b

-- The architecture's division of the event types by number: memory (1-3) and files (10-19) to
-- STORAGE, network (20-23) to NETWORK, devices (40-43) and timers (50-53) to HARDWARE, and all
-- else, unknown types included, to OPERATIONS.
abbrev pub deck_of_type : ℕ → ℕ
deck_of_type n =
    if between 1 3 n || between 10 19 n
    then 2
    else if between 20 23 n
    then 4
    else if between 40 43 n || between 50 53 n
    then 3
    else 1

-- whether the two sides agree on the `n` types from `first` on
agrees : ℕ → ℕ → Bool
agrees first zero = true
agrees first (suc n) =
    let rest = agrees (first + 1) n in (first_deck first == deck_of_type first) && rest

agrees-first_deck :
    (n first type : ℕ)
    → agrees first n ≡ true
    → first ≤ type
    → type < first + n
    → first_deck type ≡ deck_of_type type
unfolding agrees
agrees-first_deck zero first type h low high = absurd (omega arith)
agrees-first_deck (suc n) first type h low high = elim (dec_lt first type) [
  | yes later ↦ agrees-first_deck n (first + 1) type (ground arith) (omega arith) (omega arith)
  | no same ↦
      let e : first ≡ type = omega arith in
      subst (λ t. first_deck t ≡ deck_of_type t) e
        ((==_iff (first_deck first) (deck_of_type first)).0 (ground arith))
]

-- every number of a list is below 65
small : List ℕ → Bool
small [] = true
small (m ∷ ms) = ltb m 65 && small ms

one_of_large : (n : ℕ) (ms : List ℕ) → 65 ≤ n → small ms ≡ true → one_of n ms ≡ false
unfolding small
one_of_large n [] h s = refl
one_of_large n (m ∷ ms) h s = ground (arith, one_of_large n ms)

small_types : agrees 0 65 ≡ true
unfolding agrees first_deck
small_types = refl

large_types : (n : ℕ) → 65 ≤ n → first_deck n ≡ 1
unfolding first_deck small
large_types n h = rw (
  one_of_large n storage_types h refl,
  one_of_large n operations_types h refl,
  one_of_large n hardware_types h refl,
  one_of_large n network_types h refl,
)

first_deck-deck_of_type : (n : ℕ) → first_deck n ≡ deck_of_type n
first_deck-deck_of_type n = elim (dec_lt n 65) [
  | yes h ↦ agrees-first_deck 65 0 n small_types (omega arith) h
  | no h ↦ large_types n (omega arith) ∙ ground arith
]

-- The route of every event type, unknown ones included, is one step, to the deck that the
-- architecture names.
pub center_determine_route_lem :
    (type : ℕ)
    → (length (center_determine_route type) ≡ 8)
      × (first_prefix (center_determine_route type) ≡ deck_of_type type)
      × (pending_steps (center_determine_route type) ≡ 1)
unfolding center_determine_route first_prefix
center_determine_route_lem type =
    rw (first_deck-deck_of_type type) (refl, ground arith, ground arith)
