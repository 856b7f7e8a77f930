-- ===== src/Routing/Same.antt =====
-- The invariant of the routing table of routing_table.c reads the ids alone: code that changes
-- other fields of an entry (Guide, the decks) keeps it.
use box_kernel.Base.{
  ℕ, zero, suc, ◌+◌, ◌<◌, ◌≡◌, refl, ap, arith, List, [], ◌∷◌, length, none, inl, inr, ◌⊎◌, sym,
  ◌∙◌, set, get_or, update,
}
use box_kernel.Events.{RoutingEntry}
use box_kernel.Routing.{RoutingTable, routing_table_size, zero_entry}
use box_kernel.Routing.Slots.{occupied, find, Distinct}
use box_kernel.Routing.Invariant.{IsValid, slots_at, replace-IsValid}

-- slot by slot the same ids
abbrev pub SameIds : List RoutingEntry → List RoutingEntry → Type 0
SameIds [] [] = Unit
SameIds [] (f ∷ fs) = ⊥
SameIds (e ∷ es) [] = ⊥
SameIds (e ∷ es) (f ∷ fs) = (f.event_id ≡ e.event_id) × SameIds es fs

pub SameIds-refl : (es : List RoutingEntry) → SameIds es es
SameIds-refl [] = tt
SameIds-refl (e ∷ es) = (refl, SameIds-refl es)

length-SameIds : (es fs : List RoutingEntry) → SameIds es fs → length fs ≡ length es
length-SameIds [] [] h = refl
length-SameIds [] (f ∷ fs) h = absurd h
length-SameIds (e ∷ es) [] h = absurd h
length-SameIds (e ∷ es) (f ∷ fs) h = ap suc (length-SameIds es fs h.1)

occupied-SameIds : (es fs : List RoutingEntry) → SameIds es fs → occupied fs ≡ occupied es
occupied-SameIds [] [] h = refl
occupied-SameIds [] (f ∷ fs) h = absurd h
occupied-SameIds (e ∷ es) [] h = absurd h
occupied-SameIds (e ∷ es) (f ∷ fs) h = ground (arith, h.0, occupied-SameIds es fs h.1)

find-none-SameIds :
    (id : ℕ) (es fs : List RoutingEntry) → SameIds es fs → find id es ≡ none → find id fs ≡ none
find-none-SameIds id [] [] h n = refl
find-none-SameIds id [] (f ∷ fs) h n = absurd h
find-none-SameIds id (e ∷ es) [] h n = absurd h
find-none-SameIds id (e ∷ es) (f ∷ fs) h n = ground (arith, h.0, find-none-SameIds id es fs h.1)

Distinct-SameIds : (es fs : List RoutingEntry) → SameIds es fs → Distinct es → Distinct fs
Distinct-SameIds [] [] h d = tt
Distinct-SameIds [] (f ∷ fs) h d = absurd h
Distinct-SameIds (e ∷ es) [] h d = absurd h
Distinct-SameIds (e ∷ es) (f ∷ fs) h (free, d) = (kept free, Distinct-SameIds es fs h.1 d)
  where
    kept :
        (e.event_id ≡ 0) ⊎ (find e.event_id es ≡ none)
        → (f.event_id ≡ 0) ⊎ (find f.event_id fs ≡ none)
    kept (inl z) = inl (h.0 ∙ z)
    kept (inr n) = inr (rw h.0 (find-none-SameIds e.event_id es fs h.1 n))

-- A bucket whose entries keep their ids keeps the table valid.
pub same_ids-IsValid :
    {t : RoutingTable} (i : ℕ) (es : List RoutingEntry)
    → i < routing_table_size
    → SameIds (slots_at t i) es
    → IsValid t
    → IsValid (record t { buckets = update t.buckets i (record (t.buckets i) { entries = es }) })
same_ids-IsValid {t} i es below same v =
    let old = slots_at t i in
    replace-IsValid v i (record (t.buckets i) { entries = es }) t.total_entries t.collisions below
      (length-SameIds old es same ∙ v.sized i) (v.counted i ∙ sym (occupied-SameIds old es same))
      (Distinct-SameIds old es same (v.distinct i))
      (λ id nz h. v.homed i id nz (λ n. h (find-none-SameIds id old es same n)))
      (ap (λ (n : ℕ). t.total_entries + n) (sym (occupied-SameIds old es same)))

pub SameIds-set :
    (es : List RoutingEntry) (slot : ℕ) (e : RoutingEntry)
    → e.event_id ≡ (get_or es slot zero_entry).event_id
    → SameIds es (set es slot e)
SameIds-set [] slot e h = tt
SameIds-set (x ∷ xs) zero e h = (h, SameIds-refl xs)
SameIds-set (x ∷ xs) (suc slot) e h = (refl, SameIds-set xs slot e h)
