-- ===== src/Receiver/Validate.antt =====
-- What the Receiver's validation accepts. receiver.h.
use mathlib.Core.Logic.{◌↔◌}
use box_kernel.Base.{
  ℕ, zero, suc, ◌≤◌, ◌<◌, ◌^◌, ◌≡◌, ◌≢◌, ◌⊎◌, inl, inr, true, arith, List, [], ◌∷◌, get_or, length,
  Bool-cases, ◌==◌,
}
use box_kernel.Events.{Event, read_u64}
use box_kernel.Events.EventType
use box_kernel.Receiver.{has_nul, receiver_validate_event}

-- What the Receiver promises of an event that it lets in: its type is in range, its sender is
-- named, it carries no id of its own, an allocation has a size of at most 4 GB, and the path of an
-- open has a terminator among the payload's bytes.
pub record IsAcceptable (e : Event) : Type 0 where
  pub type_range : (0 < e.type) × (e.type < 255)
  pub sender : e.user_id ≢ 0
  pub unforged : e.id ≡ 0
  pub size :
      (e.type ≢ EventType.memory_alloc)
      ⊎ ((0 < read_u64 0 e.payload) × (read_u64 0 e.payload ≤ 2 ^ 32))
  pub terminated :
      (e.type ≢ EventType.file_open)
      ⊎ ((i : ℕ) × (i < length e.payload) × (get_or e.payload i 1 ≡ 0))

has_nul-index : (bs : List ℕ) → has_nul bs ≡ true → (i : ℕ) × (i < length bs) × (get_or bs i 1 ≡ 0)
unfolding has_nul
has_nul-index [] h = absurd (ground arith)
has_nul-index (b ∷ bs) h = elim (Bool-cases (b == 0)) [
  | inl z ↦ (0, omega arith, ground arith)
  | inr nz ↦ let (i, below, e) = has_nul-index bs (ground arith) in (suc i, omega arith, e)
]

pub index-has_nul : (bs : List ℕ) (i : ℕ) → i < length bs → get_or bs i 1 ≡ 0 → has_nul bs ≡ true
unfolding has_nul
index-has_nul [] i h e = absurd (omega arith)
index-has_nul (b ∷ bs) zero h e = ground arith
index-has_nul (b ∷ bs) (suc i) h e = ground (arith, index-has_nul bs i (omega arith) e)

-- The validation accepts exactly the acceptable events.
pub receiver_validate_event_iff : (e : Event) → (receiver_validate_event e ≡ true) ↔ IsAcceptable e
unfolding receiver_validate_event
receiver_validate_event_iff e = (accepts, λ a. refuses a a.terminated)
  where
    accepts : receiver_validate_event e ≡ true → IsAcceptable e
    accepts h = record {
      type_range = ground arith;
      sender = ground arith;
      unforged = ground arith;
      size = ground arith;
      terminated = elim (Bool-cases (e.type == EventType.file_open)) [
        | inl opens ↦ inr (has_nul-index e.payload (ground arith))
        | inr other ↦ inl (ground arith)
      ];
    }

    refuses :
        IsAcceptable e
        → (e.type ≢ EventType.file_open)
          ⊎ ((i : ℕ) × (i < length e.payload) × (get_or e.payload i 1 ≡ 0))
        → receiver_validate_event e ≡ true
    refuses a (inl other) = ground (arith, a.type_range, a.sender, a.unforged, a.size)
    refuses a (inr (i, below, z)) =
        ground
          (arith, a.type_range, a.sender, a.unforged, a.size, index-has_nul e.payload i below z)
