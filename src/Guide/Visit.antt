-- ===== src/Guide/Visit.antt =====
-- What Guide does with one entry. guide.h, the body of the loop of `guide_scan_and_route`.
use native.Mathlib.Decide.{dec_lt}
use box_kernel.Base.{
  ℕ, ◌+◌, ◌≤◌, ◌≡◌, not, ne→==, ==_iff, ◌&&◌, ltb, if-both, lt→ltb, le→ltb, append-nil, ◌≢◌, refl,
  sym, ◌∙◌, ap, Bool, true, false, arith, List, [], ◌∷◌, ◌++◌, append_assoc, length, length-append,
  inl, inr, ◌⊎◌, Bool-cases, ◌==◌, leb, if◌then◌else◌, update, replicate,
}
use box_kernel.Ring.{deck_queue_size, ring_push}
use box_kernel.Ring.Inv
use box_kernel.Ring.Inv.{deck_queue_size-IsRingSize, ring_push-IsValid}
use box_kernel.Ring.Refine.{contents}
use box_kernel.Ring.Batch.{ring_push-append, ring_push-full}
use box_kernel.Events.{
  max_routing_steps, EventStatus, RoutingEntry, routing_entry_get_next_prefix, deck_prefix_none,
}
use box_kernel.Routing.{EntryRef}
use box_kernel.Guide.{DeckQueue, Queues, is_processing, finish, dispatch, visit_entry}

abbrev pub queued : DeckQueue → List EntryRef
queued q = contents deck_queue_size q

-- every queue is a valid ring
pub record IsValid (q : Queues) : Type 0 where
  pub decks : (p : ℕ) → Inv.IsValid deck_queue_size (q.deck_queues p)
  pub execution : Inv.IsValid deck_queue_size q.execution_queue

finish-IsValid :
    (final : EventStatus) (ref : EntryRef) (e : RoutingEntry) {q : Queues}
    → IsValid q
    → IsValid (finish final ref e q).1
unfolding finish
finish-IsValid final ref e {q} v =
    let pushed =
      ring_push-IsValid deck_queue_size-IsRingSize {r = q.execution_queue} ref v.execution in
    elim (Bool-cases (ring_push deck_queue_size q.execution_queue ref).0) [
      | inl ok ↦ rw ok (record { decks = v.decks; execution = pushed })
      | inr full ↦ rw full (record { decks = v.decks; execution = pushed })
    ]

dispatch-IsValid :
    (prefix : ℕ) (ref : EntryRef) (e : RoutingEntry) {q : Queues}
    → IsValid q
    → IsValid (dispatch prefix ref e q).1
unfolding dispatch
dispatch-IsValid prefix ref e {q} v =
    elim (Bool-cases (ring_push deck_queue_size (q.deck_queues prefix) ref).0) [
      | inl ok ↦ rw ok (record { decks = at; execution = v.execution })
      | inr full ↦ rw full (record { decks = at; execution = v.execution })
    ]
  where
    queue : DeckQueue
    queue = (ring_push deck_queue_size (q.deck_queues prefix) ref).1

    at : (p : ℕ) → Inv.IsValid deck_queue_size (update q.deck_queues prefix queue p)
    at p = elim (Bool-cases (prefix == p)) [
      | inl e ↦ rw e (ring_push-IsValid deck_queue_size-IsRingSize ref (v.decks prefix))
      | inr e ↦ rw e (v.decks p)
    ]

-- Valid queues stay valid whatever the entry.
pub visit_entry-IsValid :
    (ref : EntryRef) (e : RoutingEntry) {q : Queues} → IsValid q → IsValid (visit_entry ref e q).1
unfolding visit_entry
visit_entry-IsValid ref e {q} v =
    let P : RoutingEntry × Queues → Type 0 = λ out. IsValid out.1 in
    if-both P (e.event_id == 0) v (
      if-both P (not (is_processing e.state)) v (
        if-both P (routing_entry_get_next_prefix e == deck_prefix_none)
          (finish-IsValid EventStatus.success ref e v)
          (if-both P (not (e.abort_flag == 0)) (finish-IsValid EventStatus.error ref _ v) (
            if-both P
              (leb 1 (routing_entry_get_next_prefix e) && leb (routing_entry_get_next_prefix e) 4)
              (dispatch-IsValid (routing_entry_get_next_prefix e) ref e v) v))))

-- Guide changes no id and no copy of an event.
pub visit_entry-same :
    (ref : EntryRef) (e : RoutingEntry) (q : Queues)
    → let e' = (visit_entry ref e q).0 in
      (e'.event_id ≡ e.event_id)
      × (e'.event_copy ≡ e.event_copy)
      × (e'.deck_results ≡ e.deck_results)
unfolding visit_entry finish dispatch
visit_entry-same ref e q = ground arith

abbrev pub room : DeckQueue → Bool
room q = ltb (length (queued q)) deck_queue_size

-- a push onto a valid queue, in terms of what it holds
push_queued :
    (q : DeckQueue) (ref : EntryRef)
    → Inv.IsValid deck_queue_size q
    → ((ring_push deck_queue_size q ref).0 ≡ room q)
      × (queued (ring_push deck_queue_size q ref).1 ≡ queued q ++ (if room q then ref ∷ [] else []))
push_queued q ref v = elim (dec_lt (length (queued q)) deck_queue_size) [
  | yes h ↦
      let (ok, e) = ring_push-append deck_queue_size-IsRingSize ref v h in rw (lt→ltb _ _ h) (ok, e)
  | no h ↦
      let full : deck_queue_size ≤ length (queued q) = omega arith in
      let (refused, e) = ring_push-full deck_queue_size-IsRingSize ref v full in
      rw (le→ltb _ _ full) (refused, e ∙ sym (append-nil (queued q)))
]

-- An entry in work: it has an id and is in the state PROCESSING.
pub record InWork (e : RoutingEntry) : Type 0 where
  pub has_id : e.event_id ≢ 0
  pub in_state : is_processing e.state ≡ true

module _ (ref : EntryRef) (e : RoutingEntry) {q : Queues} (v : IsValid q) (w : InWork e) where
  finish_lem :
      (final : EventStatus) (f : RoutingEntry)
      → let (f', q') = finish final ref f q in
        (f' ≡ (if room q.execution_queue then record f { state = final } else f))
        × (queued q'.execution_queue
            ≡ queued q.execution_queue ++ (if room q.execution_queue then ref ∷ [] else []))
        × ((p : ℕ) → q'.deck_queues p ≡ q.deck_queues p)
  unfolding finish
  finish_lem final f =
      let (ok, e) = push_queued q.execution_queue ref v.execution in
      elim (Bool-cases (room q.execution_queue)) [
        | inl yes' ↦ rw (ok, yes') (refl, rw yes' at e, λ p. refl)
        | inr no' ↦ rw (ok, no') (refl, rw no' at e, λ p. refl)
      ]

  has_id_test : (e.event_id == 0) ≡ false
  has_id_test = ne→== e.event_id 0 w.has_id

  -- With valid queues, Guide sends an entry in work whose route is done to the execution queue and
  -- marks it SUCCESS; while that queue is full it leaves the entry as it is, for a later scan. No
  -- deck's queue changes.
  pub visit_entry-done :
      (p : ℕ)
      → routing_entry_get_next_prefix e ≡ deck_prefix_none
      → let (e', q') = visit_entry ref e q in
        (e' ≡ (if room q.execution_queue then record e { state = EventStatus.success } else e))
        × (queued q'.execution_queue
            ≡ queued q.execution_queue ++ (if room q.execution_queue then ref ∷ [] else []))
        × (q'.deck_queues p ≡ q.deck_queues p)
  unfolding visit_entry
  visit_entry-done p done =
      let (state, sent, same) = finish_lem EventStatus.success e in
      rw (has_id_test, w.in_state, done) (state, sent, same p)

  -- With valid queues, Guide sends an aborted entry in work with steps left to the execution queue
  -- and marks it ERROR. Its route is cleared in any case; while the queue is full its state stays
  -- PROCESSING.
  pub visit_entry-aborted :
      (p : ℕ)
      → routing_entry_get_next_prefix e ≢ deck_prefix_none
      → e.abort_flag ≢ 0
      → let (e', q') = visit_entry ref e q in
        let cleared = record e { prefixes = replicate max_routing_steps deck_prefix_none } in
        (e' ≡ (
          if room q.execution_queue then record cleared { state = EventStatus.error } else cleared))
        × (queued q'.execution_queue
            ≡ queued q.execution_queue ++ (if room q.execution_queue then ref ∷ [] else []))
        × (q'.deck_queues p ≡ q.deck_queues p)
  unfolding visit_entry
  visit_entry-aborted p more aborted =
      let cleared = record e { prefixes = replicate max_routing_steps deck_prefix_none } in
      let (state, sent, same) = finish_lem EventStatus.error cleared in
      rw
        (
          has_id_test,
          w.in_state,
          ne→== (routing_entry_get_next_prefix e) deck_prefix_none more,
          ne→== e.abort_flag 0 aborted,
        )
        (state, sent, same p)

  dispatch_lem :
      (next p : ℕ)
      → let (e', q') = dispatch next ref e q in
        (e' ≡ e)
        × (queued (q'.deck_queues p)
            ≡ queued (q.deck_queues p)
              ++ (if (next == p) && room (q.deck_queues p) then ref ∷ [] else []))
        × (q'.execution_queue ≡ q.execution_queue)
  unfolding dispatch
  dispatch_lem next p = elim (Bool-cases (ring_push deck_queue_size (q.deck_queues next) ref).0) [
    | inl ok ↦ rw ok (refl, at_p (Bool-cases (next == p)), refl)
    | inr no' ↦ rw no' (refl, at_p (Bool-cases (next == p)), refl)
  ]
    where
      queue : DeckQueue
      queue = (ring_push deck_queue_size (q.deck_queues next) ref).1

      at_p :
          ((next == p) ≡ true) ⊎ ((next == p) ≡ false)
          → queued (update q.deck_queues next queue p)
            ≡ queued (q.deck_queues p)
              ++ (if (next == p) && room (q.deck_queues p) then ref ∷ [] else [])
      at_p (inl here) =
          let same : next ≡ p = (==_iff next p).0 here in
          rw here (
            (push_queued (q.deck_queues next) ref (v.decks next)).1
            ∙ ap
                (λ n. queued (q.deck_queues n) ++ (if room (q.deck_queues n) then ref ∷ [] else []))
                same)
      at_p (inr elsewhere) = rw elsewhere (sym (append-nil (queued (q.deck_queues p))))

  -- With valid queues, Guide sends an entry in work, not aborted, whose next step is the deck 1, 2,
  -- 3 or 4, to the queue of that deck, when it has room, and to no other queue. The entry does not
  -- change.
  pub visit_entry-dispatched :
      (p : ℕ)
      → 1 ≤ routing_entry_get_next_prefix e
      → routing_entry_get_next_prefix e ≤ 4
      → e.abort_flag ≡ 0
      → let (e', q') = visit_entry ref e q in
        let next = routing_entry_get_next_prefix e in
        (e' ≡ e)
        × (queued (q'.deck_queues p)
            ≡ queued (q.deck_queues p)
              ++ (if (next == p) && room (q.deck_queues p) then ref ∷ [] else []))
        × (q'.execution_queue ≡ q.execution_queue)
  unfolding visit_entry
  visit_entry-dispatched p low high going =
      let next = routing_entry_get_next_prefix e in
      let more : (next == deck_prefix_none) ≡ false = ground arith in
      let alive : (e.abort_flag == 0) ≡ true = ground arith in
      let inside : (leb 1 next && leb next 4) ≡ true = ground arith in
      rw (has_id_test, w.in_state, more, alive, inside) (dispatch_lem next p)

-- With valid queues, an entry in work, not aborted, that its deck has not processed yet is sent to
-- the deck again: two visits in a row put two pointers to it into the queue, when there is room.
pub visit_entry-twice :
    (ref : EntryRef) (e : RoutingEntry) {q : Queues}
    → IsValid q
    → InWork e
    → 1 ≤ routing_entry_get_next_prefix e
    → routing_entry_get_next_prefix e ≤ 4
    → e.abort_flag ≡ 0
    → length (queued (q.deck_queues (routing_entry_get_next_prefix e))) + 2 ≤ deck_queue_size
    → let next = routing_entry_get_next_prefix e in
      let (e', q') = visit_entry ref e q in
      queued ((visit_entry ref e' q').1.deck_queues next)
      ≡ queued (q.deck_queues next) ++ ref ∷ ref ∷ []
visit_entry-twice ref e {q} v w low high going free =
    let next = routing_entry_get_next_prefix e in
    let q' = (visit_entry ref e q).1 in
    let one = visit_entry-dispatched ref e v w next low high going in
    let two = visit_entry-dispatched ref e (visit_entry-IsValid ref e v) w next low high going in
    let here : (next == next) ≡ true = ground arith in
    let first : room (q.deck_queues next) ≡ true = lt→ltb _ _ (omega arith) in
    let sent : queued (q'.deck_queues next) ≡ queued (q.deck_queues next) ++ ref ∷ [] =
      rw (here, first) at one.1 in
    let second : room (q'.deck_queues next) ≡ true =
      lt→ltb _ _
        (omega (arith, ap length sent, length-append (queued (q.deck_queues next)) (ref ∷ []))) in
    rw one.0 (
      (rw (here, second) at two.1)
      ∙ ap (λ l. l ++ ref ∷ []) sent
      ∙ append_assoc (queued (q.deck_queues next)) (ref ∷ []) (ref ∷ []))
