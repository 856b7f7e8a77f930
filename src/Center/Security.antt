-- ===== src/Center/Security.antt =====
-- What Center's security check denies. center.h, `security_check_event`.
use mathlib.Core.Logic.{◌↔◌}
use box_kernel.Base.{
  ◌<◌, ◌^◌, ◌≡◌, ◌⊎◌, inl, inr, Bool, true, false, arith, ◌==◌, ltb, ◌&&◌, ◌||◌, Bool-cases,
}
use box_kernel.Klib.{ℤ, pos, negsuc, strcmp}
use box_kernel.Klib.Strings.{c_string, strcmp-eq-zero, strcmp-zero_of_eq}
use box_kernel.Events.{Event, read_u64}
use box_kernel.Events.EventType
use box_kernel.Center.{security_check_event, shadow_path, is_zero}

-- The policy: no allocation or mapping of more than 1 GB, and no opening, reading or writing by the
-- path /etc/shadow.
abbrev pub IsDenied : Event → Type 0
IsDenied e =
    (((e.type ≡ EventType.memory_alloc) ⊎ (e.type ≡ EventType.memory_map))
      × (2 ^ 30 < read_u64 0 e.payload))
    ⊎ (((e.type ≡ EventType.file_open)
          ⊎ (e.type ≡ EventType.file_read)
          ⊎ (e.type ≡ EventType.file_write))
        × (c_string e.payload ≡ c_string shadow_path))

is_zero_of_eq : (z : ℤ) → z ≡ pos 0 → is_zero z ≡ true
is_zero_of_eq z h = rw h

eq_of_is_zero : (z : ℤ) → is_zero z ≡ true → z ≡ pos 0
eq_of_is_zero (pos n) h = ground arith
eq_of_is_zero (negsuc n) h = cc

-- The check denies exactly what the policy names.
pub security_check_event_iff : (e : Event) → (security_check_event e ≡ false) ↔ IsDenied e
unfolding security_check_event
security_check_event_iff e = (denies, denied)
  where
    memory : Bool
    memory = (e.type == EventType.memory_alloc) || (e.type == EventType.memory_map)

    denies : security_check_event e ≡ false → IsDenied e
    denies h = elim (Bool-cases (ltb (2 ^ 30) (read_u64 0 e.payload) && memory)) [
      | inl m ↦ inl (ground arith, ground arith)
      | inr other ↦ elim (Bool-cases (is_zero (strcmp e.payload shadow_path))) [
        | inl z ↦ inr (ground arith, strcmp-eq-zero e.payload shadow_path (eq_of_is_zero _ z))
        | inr nz ↦ absurd (ground arith)
      ]
    ]

    denied : IsDenied e → security_check_event e ≡ false
    denied (inl (kind, big)) = ground arith
    denied (inr (kind, path)) =
        ground (arith, kind, is_zero_of_eq _ (strcmp-zero_of_eq e.payload shadow_path path))
