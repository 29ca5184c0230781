-- ===== src/Buffer.antt =====
-- src/infra/audio/DoubleBuffer.cpp and src/infra/io/AsyncBufferController.cpp: two blocks, one that is read
-- from and one that a coroutine refills. The coroutine's steps, which run between two calls of
-- `get_frame`, are functions of their own.
pub mod Readiness
pub mod Playback
use hermes_flow_server.Common.{
  ℕ, zero, suc, ◌+◌, ◌-◌, ◌*◌, ◌<◌, ◌≡◌, refl, ap, Bool, true, false, ◌&&◌, List, [], ◌∷◌, ◌++◌,
  Option, none, some, length, take, drop, ltb, ◌==◌, if◌then◌else◌,
}

-- `config::FRAME_SIZE_BYTES` and `config::BUFFER_SIZE`
abbrev pub frame_size_bytes : ℕ
frame_size_bytes = 320

abbrev pub buffer_size : ℕ
buffer_size = 131072

unfoldable pub zeros : ℕ → List ℕ
zeros zero = []
zeros (suc n) = 0 ∷ zeros n

pub length-zeros : (n : ℕ) → length (zeros n) ≡ n
unfolding zeros
length-zeros zero = refl
length-zeros (suc n) = ap suc (length-zeros n)

-- `DoubleBuffer`: `read_index` is 0 or 1.
pub record DoubleBuffer : Type 0 where
  pub block0 : List ℕ
  pub block1 : List ℕ
  pub read_index : ℕ
  pub back_buffer_ready : Bool

unfoldable pub get_block : DoubleBuffer → ℕ → List ℕ
get_block b i = if i == 0 then b.block0 else b.block1

unfoldable pub set_block : DoubleBuffer → ℕ → List ℕ → DoubleBuffer
set_block b i bytes = if i == 0 then record b { block0 = bytes } else record b { block1 = bytes }

abbrev pub get_read_span : DoubleBuffer → List ℕ
get_read_span b = get_block b b.read_index

abbrev pub get_write_span : DoubleBuffer → List ℕ
get_write_span b = get_block b (1 - b.read_index)

unfoldable pub swap : DoubleBuffer → DoubleBuffer
swap b = record b { read_index = 1 - b.read_index }

-- The blocks keep their sizes.
unfoldable pub reset_buffer : DoubleBuffer → DoubleBuffer
reset_buffer b = record {
  block0 = zeros (length b.block0);
  block1 = zeros (length b.block1);
  read_index = 0;
  back_buffer_ready = false;
}

pub data BufferState : Type 0 where
  idle initializing ready underrun faulted end_of_stream : BufferState

pub record AsyncBufferController : Type 0 where
  pub bf : DoubleBuffer
  pub in_buffer_processed_frames : ℕ
  pub state : BufferState
  -- coroutines that were spawned and have not started
  pub spawned : ℕ
  -- blocks that started coroutines are filling
  pub filling : List ℕ

-- What a fetch leaves in a span: the bytes read, and zeros behind them.
unfoldable pub padded : ℕ → List ℕ → List ℕ
padded size bytes = take size bytes ++ zeros (size - length bytes)

-- `initialize_buffers`, with what its two fetches read.
unfoldable pub initialize_buffers : List ℕ → List ℕ → AsyncBufferController → AsyncBufferController
unfolding swap
initialize_buffers bytes1 bytes2 c =
    let first =
      set_block c.bf (1 - c.bf.read_index) (padded (length (get_write_span c.bf)) bytes1) in
    let swapped = swap (record first { back_buffer_ready = true }) in
    let second =
      set_block swapped (1 - swapped.read_index)
        (padded (length (get_write_span swapped)) bytes2) in
    record c { bf = record second { back_buffer_ready = true }; state = ready }

-- The calls of `swap_and_trigger_refill`. The flag `back_buffer_ready` is not touched.
unfoldable pub swap_and_trigger_refill : AsyncBufferController → AsyncBufferController
unfolding swap
swap_and_trigger_refill c = record c {
  bf = swap c.bf;
  in_buffer_processed_frames = 0;
  spawned = c.spawned + 1;
}

abbrev pub copy_frame : List ℕ → ℕ → List ℕ → List ℕ
copy_frame span buffer_offset output =
    take frame_size_bytes (drop buffer_offset span) ++ drop frame_size_bytes output

-- The result (false for the error Underrun), the output buffer and the controller afterwards.
unfoldable pub get_frame :
    AsyncBufferController → List ℕ → ℕ → Bool × List ℕ × AsyncBufferController
unfolding swap_and_trigger_refill
get_frame c output offset =
    let buffer_offset = c.in_buffer_processed_frames * frame_size_bytes + offset in
    if ltb (length (get_read_span c.bf)) (buffer_offset + frame_size_bytes)
    then (if c.bf.back_buffer_ready
        then (let c' = swap_and_trigger_refill c in
            (
              true,
              copy_frame (get_read_span c'.bf) offset output,
              record c' { in_buffer_processed_frames = 1 },
            ))
        else (false, zeros (length output), record c { state = underrun }))
    else (
      true,
      copy_frame (get_read_span c.bf) buffer_offset output,
      record c { in_buffer_processed_frames = c.in_buffer_processed_frames + 1 },
    )

-- The coroutine starts: it takes the span that is the write span by then.
unfoldable pub start_refill : AsyncBufferController → AsyncBufferController
start_refill c = record c { spawned = c.spawned - 1; filling = (1 - c.bf.read_index) ∷ c.filling }

abbrev pub remove_first : ℕ → List ℕ → List ℕ
remove_first i [] = []
remove_first i (j ∷ js) = if i == j then js else j ∷ remove_first i js

-- Its fetch for block `i` returns `bytes`.
unfoldable pub finish_refill : AsyncBufferController → ℕ → List ℕ → AsyncBufferController
finish_refill c i bytes =
    let filled = set_block c.bf i (padded (length (get_block c.bf i)) bytes) in
    record c {
      bf = record filled { back_buffer_ready = true };
      state =
          if ltb (length bytes) (length (get_block c.bf i)) && length bytes == 0
          then end_of_stream
          else c.state;
      filling = remove_first i c.filling;
    }

-- Its fetch throws.
unfoldable pub fail_refill : AsyncBufferController → AsyncBufferController
fail_refill c = record c { state = faulted }

unfoldable pub reset : AsyncBufferController → AsyncBufferController
unfolding reset_buffer
reset c = record c { bf = reset_buffer c.bf; in_buffer_processed_frames = 0; state = idle }
