-- ===== src/Buffer/Readiness.antt =====
-- src/infra/io/AsyncBufferController.cpp against the contract of src/infra/audio/DoubleBuffer.hpp: after a
-- swap the flag of the back buffer is to be false until the refill is done.
use hermes_flow_server.Common.{ℕ, ◌+◌, ◌-◌, ◌*◌, ◌<◌, ◌≡◌, true, List, [], ◌∷◌, length, arith}
use hermes_flow_server.Buffer.{
  AsyncBufferController, set_block, get_frame, start_refill, finish_refill, fail_refill,
  get_read_span, swap,
}

-- What may happen between two calls, and a call with its output buffer.
pub data Event : Type 0 where
  frame : List ℕ → Event
  started : Event
  finished : ℕ → List ℕ → Event
  failed : Event

unfoldable pub step : AsyncBufferController → Event → AsyncBufferController
step c (frame output) = (get_frame c output 0).2
step c started = start_refill c
step c (finished i bytes) = finish_refill c i bytes
step c failed = fail_refill c

unfoldable pub run : AsyncBufferController → List Event → AsyncBufferController
run c [] = c
run c (e ∷ es) = run (step c e) es

step-ready :
    (c : AsyncBufferController) (e : Event)
    → c.bf.back_buffer_ready ≡ true
    → (step c e).bf.back_buffer_ready ≡ true
unfolding step get_frame start_refill finish_refill fail_refill set_block
step-ready c (frame output) h = ground arith
step-ready c started h = h
step-ready c (finished i bytes) h = ground arith
step-ready c failed h = h

run-ready :
    (c : AsyncBufferController) (es : List Event)
    → c.bf.back_buffer_ready ≡ true
    → (run c es).bf.back_buffer_ready ≡ true
unfolding run
run-ready c [] h = h
run-ready c (e ∷ es) h = run-ready (step c e) es (step-ready c e h)

get_frame_ready :
    (c : AsyncBufferController) (output : List ℕ)
    → c.bf.back_buffer_ready ≡ true
    → (get_frame c output 0).0 ≡ true
unfolding get_frame
get_frame_ready c output h = ground arith

-- Once the flag of the back buffer is set, `get_frame` never reports an underrun again, whatever
-- frames, starts, ends and failures of refills come in between.
pub underrun_unreachable :
    (c : AsyncBufferController) (es : List Event) (output : List ℕ)
    → c.bf.back_buffer_ready ≡ true
    → (get_frame (run c es) output 0).0 ≡ true
underrun_unreachable c es output h = get_frame_ready (run c es) output (run-ready c es h)

-- With the flag set, at the end of a block and with a refill of the other one under way, the
-- next call of `get_frame` succeeds and turns to the block that is being filled.
pub reads_while_filled :
    (c : AsyncBufferController) (output filling : List ℕ)
    → c.bf.back_buffer_ready ≡ true
    → c.filling ≡ (1 - c.bf.read_index) ∷ filling
    → length (get_read_span c.bf) < c.in_buffer_processed_frames * 320 + 320
    → let c' = (get_frame c output 0).2 in
      (c'.filling ≡ c'.bf.read_index ∷ filling) × ((get_frame c output 0).0 ≡ true)
unfolding get_frame swap
reads_while_filled c output filling r f h = ground arith
