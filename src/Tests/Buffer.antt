-- ===== src/Tests/Buffer.antt =====
-- The double buffer at concrete inputs.
use hermes_flow_server.Common.{ℕ, ◌*◌, ◌/◌, ◌%◌, ◌≡◌, refl, true, false, List, [], ◌∷◌, replicate}
use hermes_flow_server.Buffer.{
  AsyncBufferController, idle, buffer_size, zeros, length-zeros, initialize_buffers, copy_frame,
  get_frame,
}
use hermes_flow_server.Buffer.Readiness.{frame, started, failed, Event, run, underrun_unreachable}
use hermes_flow_server.Buffer.Playback.{IsFresh, played, heard, chunk, get_frame-played}

abbrev output : List ℕ
output = replicate 320 0

abbrev events : List Event
events = frame output ∷ started ∷ failed ∷ frame output ∷ []

-- Fetches of two bytes.
abbrev fetched : ℕ → List ℕ
fetched k = k ∷ k ∷ []

-- A controller as it is made.
abbrev fresh : AsyncBufferController
fresh = record {
  bf = record {
    block0 = zeros buffer_size;
    block1 = zeros buffer_size;
    read_index = 0;
    back_buffer_ready = false;
  };
  in_buffer_processed_frames = 0;
  state = idle;
  spawned = 0;
  filling = [];
}

fresh-IsFresh : IsFresh fresh
fresh-IsFresh = record {
  size0 = length-zeros buffer_size;
  size1 = length-zeros buffer_size;
  reads = refl;
  none_played = refl;
  none_spawned = refl;
}

get_frame-played_example :
    let c' = (played fetched (initialize_buffers (fetched 0) (fetched 1) fresh) output 1000).0 in
    heard fetched c' output
    ≡ (true, copy_frame (chunk fetched (1000 / 409)) (1000 % 409 * 320) output)
get_frame-played_example = get_frame-played fetched fresh output 1000 fresh-IsFresh

-- A controller whose back buffer is ready.
abbrev ready : AsyncBufferController
ready = record fresh { bf = record fresh.bf { back_buffer_ready = true } }

underrun_unreachable_example : (get_frame (run ready events) output 0).0 ≡ true
underrun_unreachable_example = underrun_unreachable ready events output refl
