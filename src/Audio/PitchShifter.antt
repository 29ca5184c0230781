-- ===== src/Audio/PitchShifter.antt =====
-- src/infra/audio/PitchShifter.cpp over an interface of the `float` operations that it uses. `none` is
-- what has no defined result: an access outside the delay buffer or the span, a remainder by 0, or
-- a loop that is not over when the fuel is.
pub mod Laws
pub mod Reads
pub mod Frames
pub mod Index
pub mod DelayLine
use hermes_flow_server.Common.{
  ℕ, zero, suc, ◌+◌, ◌-◌, ◌*◌, ◌/◌, ◌%◌, Bool, Option, none, some, List, [], ◌∷◌, ◌++◌, leb, ltb,
  if◌then◌else◌, get_elem?, length, set, take, drop, replicate,
}
use hermes_flow_server.Common.Int.{ℤ, pos, negsuc, ltb_ℤ}
use hermes_flow_server.Common.Post.{◌>>=◌}

-- The operations of `float`; `of_int` and `to_int` are the casts.
pub record Float (F : Type 0) : Type 0 where
  pub of_int : ℤ → F
  pub to_int : F → ℤ
  pub half : F
  pub add : F → F → F
  pub sub : F → F → F
  pub mul : F → F → F
  pub div : F → F → F
  pub abs : F → F
  pub pow : F → F → F
  pub lt : F → F → Bool
  pub le : F → F → Bool
  pub eq : F → F → Bool

-- The index of an access, and a remainder.
abbrev pub index_of : ℤ → Option ℕ
index_of (pos n) = some n
index_of (negsuc n) = none

abbrev pub remainder : ℕ → ℕ → Option ℕ
remainder a zero = none
remainder a (suc b) = some (a % suc b)

abbrev pub quotient : ℕ → ℕ → Option ℕ
quotient a zero = none
quotient a (suc b) = some (a / suc b)

abbrev pub write_at : {A : Type 0} → List A → ℕ → A → Option (List A)
write_at xs i v = if ltb i (length xs) then some (set xs i v) else none

-- `std::clamp` to the range of an `int16_t`.
abbrev pub clamp : ℤ → ℤ
clamp v =
    if ltb_ℤ v (negsuc 32767) then negsuc 32767 else (if ltb_ℤ (pos 32767) v then pos 32767 else v)

-- The first index of a read, of which the rounding of the position may have made the size.
abbrev pub bounded : ℕ → ℕ → ℕ
bounded size idx = if leb size idx then size - 1 else idx

pub record PitchShifter (F : Type 0) : Type 0 where
  pub sample_rate : ℕ
  pub channels : ℕ
  pub max_delay_samples : ℕ
  pub buffer_size : ℕ
  pub delay_buffer : List F
  pub write_ptr : ℕ
  pub phase : F

pub record CrossfadeParams (F : Type 0) : Type 0 where
  pub delay1 : F
  pub weight1 : F
  pub delay2 : F
  pub weight2 : F

module _ {F : Type 0} (f : Float F) where
  -- For arguments that are not negative, and of which the products fit an `int`.
  unfoldable pub construct : ℕ → ℕ → ℕ → PitchShifter F
  construct sample_rate channels window_ms =
      let max_delay = sample_rate * window_ms / 1000 in
      record {
        sample_rate = sample_rate;
        channels = channels;
        max_delay_samples = max_delay;
        buffer_size = max_delay * 2;
        delay_buffer = replicate (max_delay * 2 * channels) (f.of_int (pos 0));
        write_ptr = 0;
        phase = f.of_int (pos 0);
      }

  unfoldable pub reset : PitchShifter F → PitchShifter F
  reset p = record p {
    write_ptr = 0;
    phase = f.of_int (pos 0);
    delay_buffer = replicate (length p.delay_buffer) (f.of_int (pos 0));
  }

  -- `while (x < 0.0F) x += step;`
  unfoldable pub raise : ℕ → F → F → Option F
  raise zero step x = none
  raise (suc fuel) step x =
      let rest = raise fuel step (f.add x step) in
      if f.lt x (f.of_int (pos 0)) then rest else some x

  -- `while (x >= step) x -= step;`
  unfoldable pub lower : ℕ → F → F → Option F
  lower zero step x = none
  lower (suc fuel) step x =
      let rest = lower fuel step (f.sub x step) in if f.le step x then rest else some x

  -- Between the frames at two indices.
  abbrev interpolate : F → F → F → F
  interpolate frac val1 val2 = f.add val1 (f.mul frac (f.sub val2 val1))

  unfoldable pub read_between : PitchShifter F → ℕ → F → ℕ → Option F
  read_between p channel read_pos idx1 = do
    idx2 ← remainder (idx1 + 1) p.buffer_size
    val1 ← get_elem? p.delay_buffer (idx1 * p.channels + channel)
    val2 ← get_elem? p.delay_buffer (idx2 * p.channels + channel)
    some (interpolate (f.sub read_pos (f.of_int (pos idx1))) val1 val2)

  -- The end of `read_interpolated`, at a position that the loops have brought into the buffer.
  unfoldable pub read_at : PitchShifter F → ℕ → F → Option F
  unfolding read_between
  read_at p channel read_pos = do
    idx ← index_of (f.to_int read_pos)
    read_between p channel read_pos (bounded p.buffer_size idx)

  unfoldable pub read_interpolated : ℕ → PitchShifter F → F → ℕ → Option F
  unfolding raise lower read_at
  read_interpolated fuel p delay_frames channel = do
    let size = f.of_int (pos p.buffer_size)
    raised ← raise fuel size (f.sub (f.of_int (pos p.write_ptr)) delay_frames)
    read_pos ← lower fuel size raised
    read_at p channel read_pos

  unfoldable get_crossfade_weight : F → F
  get_crossfade_weight p =
      f.sub (f.of_int (pos 1)) (f.abs (f.sub (f.mul (f.of_int (pos 2)) p) (f.of_int (pos 1))))

  -- The phase of the second head.
  abbrev pub opposite : F → F
  opposite phase =
      let phase2 = f.add phase f.half in
      if f.le (f.of_int (pos 1)) phase2 then f.sub phase2 (f.of_int (pos 1)) else phase2

  unfoldable pub calculate_crossfade_parameters : PitchShifter F → CrossfadeParams F
  unfolding get_crossfade_weight
  calculate_crossfade_parameters p =
      let phase2 = opposite p.phase in
      let max_delay = f.of_int (pos p.max_delay_samples) in
      record {
        delay1 = f.mul p.phase max_delay;
        weight1 = get_crossfade_weight p.phase;
        delay2 = f.mul phase2 max_delay;
        weight2 = get_crossfade_weight phase2;
      }

  -- The two heads, mixed.
  abbrev pub mixed : CrossfadeParams F → F → F → F
  mixed params out1 out2 = f.add (f.mul out1 params.weight1) (f.mul out2 params.weight2)

  -- The turn of `process_frame_channels` for one channel.
  unfoldable pub process_channel :
      ℕ → CrossfadeParams F → ℕ → List ℤ × PitchShifter F → Option (List ℤ × PitchShifter F)
  unfolding read_interpolated
  process_channel fuel params c (frame, p) = do
    sample ← get_elem? frame c
    cells ← write_at p.delay_buffer (p.write_ptr * p.channels + c) (f.of_int sample)
    let written : PitchShifter F = record p { delay_buffer = cells }
    out1 ← read_interpolated fuel written params.delay1 c
    out2 ← read_interpolated fuel written params.delay2 c
    some (set frame c (clamp (f.to_int (mixed params out1 out2))), written)

  -- The loop, from channel `c` with `left` more.
  unfoldable pub process_frame_channels :
      ℕ → CrossfadeParams F → ℕ → ℕ → List ℤ × PitchShifter F → Option (List ℤ × PitchShifter F)
  unfolding process_channel
  process_frame_channels fuel params zero c state = some state
  process_frame_channels fuel params (suc left) c state = do
    next ← process_channel fuel params c state
    process_frame_channels fuel params left (c + 1) next

  -- The new phase.
  unfoldable pub advance_phase : ℕ → F → F → F → Option F
  unfolding raise lower
  advance_phase fuel delay_change_rate phase_increment phase =
      if f.lt delay_change_rate (f.of_int (pos 0))
      then raise fuel (f.of_int (pos 1)) (f.sub phase phase_increment)
      else lower fuel (f.of_int (pos 1)) (f.add phase phase_increment)

  unfoldable pub advance_pointers : ℕ → F → F → PitchShifter F → Option (PitchShifter F)
  unfolding advance_phase
  advance_pointers fuel delay_change_rate phase_increment p = do
    write_ptr ← remainder (p.write_ptr + 1) p.buffer_size
    phase ← advance_phase fuel delay_change_rate phase_increment p.phase
    some (record p { write_ptr = write_ptr; phase = phase })

  -- The body of the loop of `process`, for a frame of its own.
  unfoldable pub process_frame :
      ℕ → F → F → List ℤ → PitchShifter F → Option (List ℤ × PitchShifter F)
  unfolding process_frame_channels advance_pointers calculate_crossfade_parameters
  process_frame fuel rate increment frame p = do
    done ← process_frame_channels fuel (calculate_crossfade_parameters p) p.channels 0 (frame, p)
    moved ← advance_pointers fuel rate increment done.1
    some (done.0, moved)

  -- The loop over the subspans. Samples after the last whole frame stay as they are.
  unfoldable pub process_frames :
      ℕ → F → F → ℕ → List ℤ → PitchShifter F → Option (List ℤ × PitchShifter F)
  unfolding process_frame
  process_frames fuel rate increment zero buffer p = some (buffer, p)
  process_frames fuel rate increment (suc n) buffer p = do
    head ← process_frame fuel rate increment (take p.channels buffer) p
    rest ← process_frames fuel rate increment n (drop p.channels buffer) head.1
    some (head.0 ++ rest.0, rest.1)

  unfoldable pub delay_change_rate : F → F
  delay_change_rate semitones =
      f.sub (f.of_int (pos 1)) (f.pow (f.of_int (pos 2)) (f.div semitones (f.of_int (pos 12))))

  unfoldable pub phase_increment : PitchShifter F → F → F
  unfolding delay_change_rate
  phase_increment p semitones =
      f.div (f.abs (delay_change_rate semitones)) (f.of_int (pos p.max_delay_samples))

  unfoldable pub process : ℕ → PitchShifter F → List ℤ → F → Option (List ℤ × PitchShifter F)
  unfolding process_frames phase_increment
  process fuel p buffer semitones =
      if f.eq semitones (f.of_int (pos 0)) then some (buffer, p) else (do
        num_frames ← quotient (length buffer) p.channels
        process_frames fuel (delay_change_rate semitones) (phase_increment p semitones) num_frames
            buffer p)
