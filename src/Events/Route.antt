-- ===== src/Events/Route.antt =====
-- The route of an entry: its prefixes in order, those done cleared. core/events.h.
use box_kernel.Base.{ℕ, ◌+◌, ◌≡◌, ◌≢◌, refl, arith, List, [], ◌∷◌, length, ◌==◌, if◌then◌else◌}
use box_kernel.Events.{
  RoutingEntry, deck_prefix_none, all_none, first_prefix, clear_first, routing_entry_is_complete,
  routing_entry_get_next_prefix, routing_entry_clear_prefix,
}

-- how many steps are left
abbrev pub pending_steps : List ℕ → ℕ
pending_steps [] = 0
pending_steps (p ∷ ps) = (if p == deck_prefix_none then 0 else 1) + pending_steps ps

all_none-first_prefix :
    (ps : List ℕ)
    → (all_none ps ≡ (first_prefix ps == deck_prefix_none))
      × (all_none ps ≡ (pending_steps ps == 0))
unfolding all_none first_prefix
all_none-first_prefix [] = (refl, refl)
all_none-first_prefix (p ∷ ps) = ground (arith, all_none-first_prefix ps)

pending_steps-clear_first :
    (ps : List ℕ)
    → first_prefix ps ≢ deck_prefix_none
    → pending_steps ps ≡ pending_steps (clear_first (first_prefix ps) ps) + 1
unfolding first_prefix clear_first
pending_steps-clear_first [] h = absurd (h refl)
pending_steps-clear_first (p ∷ ps) h = ground (arith, pending_steps-clear_first ps)

pub length-clear_first : (prefix : ℕ) (ps : List ℕ) → length (clear_first prefix ps) ≡ length ps
unfolding clear_first
length-clear_first prefix [] = refl
length-clear_first prefix (p ∷ ps) = ground (arith, length-clear_first prefix ps)

-- An entry is complete exactly when it has no next prefix, and exactly when no step is left.
pub is_complete_iff :
    (e : RoutingEntry)
    → (routing_entry_is_complete e ≡ (routing_entry_get_next_prefix e == deck_prefix_none))
      × (routing_entry_is_complete e ≡ (pending_steps e.prefixes == 0))
unfolding routing_entry_is_complete routing_entry_get_next_prefix
is_complete_iff e = all_none-first_prefix e.prefixes

-- Clearing the next prefix of an entry that has one takes one step off its route.
pub clear_next_prefix :
    (e : RoutingEntry)
    → routing_entry_get_next_prefix e ≢ deck_prefix_none
    → pending_steps e.prefixes
      ≡ pending_steps (routing_entry_clear_prefix e (routing_entry_get_next_prefix e)).prefixes + 1
unfolding routing_entry_get_next_prefix routing_entry_clear_prefix
clear_next_prefix e = pending_steps-clear_first e.prefixes
