-- ===== src/Events/Rings.antt =====
-- The rings of core/ringbuffer.h at their element types. The event ring's operations are those of
-- Ring at events; the response ring's repeat them over responses.
use box_kernel.Base.{Bool, Option}
use box_kernel.Ring.{
  RingBuffer, ring_buffer_size, ring_init, ring_is_empty, ring_is_full, ring_push, ring_pop,
}
use box_kernel.Events.{Event, Response}

abbrev pub EventRingBuffer : Type 0
EventRingBuffer = RingBuffer Event

abbrev pub event_ring_push : EventRingBuffer → Event → Bool × EventRingBuffer
event_ring_push ring event = ring_push ring_buffer_size ring event

abbrev pub ResponseRingBuffer : Type 0
ResponseRingBuffer = RingBuffer Response

abbrev pub response_ring_init : ResponseRingBuffer → ResponseRingBuffer
response_ring_init ring = ring_init ring

abbrev pub response_ring_is_empty : ResponseRingBuffer → Bool
response_ring_is_empty ring = ring_is_empty ring

abbrev pub response_ring_is_full : ResponseRingBuffer → Bool
response_ring_is_full ring = ring_is_full ring_buffer_size ring

abbrev pub response_ring_push : ResponseRingBuffer → Response → Bool × ResponseRingBuffer
response_ring_push ring response = ring_push ring_buffer_size ring response

abbrev pub response_ring_pop : ResponseRingBuffer → Option Response × ResponseRingBuffer
response_ring_pop ring = ring_pop ring_buffer_size ring
