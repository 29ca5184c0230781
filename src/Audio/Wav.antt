-- ===== src/Audio/Wav.antt =====
-- src/infra/audio/WavUtils.hpp: where the samples begin in a WAV file.
pub mod Offset
pub mod Chunks
use hermes_flow_server.Common.{
  ℕ, zero, suc, ◌+◌, ◌*◌, ◌%◌, ◌^◌, ◌==◌, Bool, true, false, ◌&&◌, ◌||◌, Option, none, some, List,
  [], ◌∷◌, length, take, drop, ltb, leb, if◌then◌else◌,
}

-- The offset that is returned; or a read outside the buffer; or no fuel is left.
pub data Outcome : Type 0 where
  offset : ℕ → Outcome
  out_of_bounds out_of_fuel : Outcome

abbrev pub default_wav_header_size : ℕ
default_wav_header_size = 44

abbrev pub wav_chunk_offset : ℕ
wav_chunk_offset = 12

abbrev pub wav_chunk_header_size : ℕ
wav_chunk_header_size = 8

-- "RIFF"
abbrev pub riff_tag : List ℕ
riff_tag = 82 ∷ 73 ∷ 70 ∷ 70 ∷ []

-- "data"
abbrev pub data_tag : List ℕ
data_tag = 100 ∷ 97 ∷ 116 ∷ 97 ∷ []

-- `memcmp(…) == 0` of as many bytes.
abbrev pub same_bytes : List ℕ → List ℕ → Bool
same_bytes [] [] = true
same_bytes (x ∷ xs) (y ∷ ys) = x == y && same_bytes xs ys
same_bytes _ _ = false

-- `n` bytes from a position on, where they are in the buffer.
abbrev pub bytes_at : List ℕ → ℕ → ℕ → Option (List ℕ)
bytes_at buffer pos n =
    if leb (pos + n) (length buffer) then some (take n (drop pos buffer)) else none

-- The number whose bytes are copied into `chunk_size`, the lowest first.
abbrev pub le_value : List ℕ → ℕ
le_value [] = 0
le_value (b ∷ bs) = b + 256 * le_value bs

-- The body of the loop, with what it does at the next position.
abbrev pub at_chunk : List ℕ → ℕ → Option (List ℕ) → Option (List ℕ) → (ℕ → Outcome) → Outcome
at_chunk buffer pos (some chunk_id) (some size) rest =
    let next_pos = (pos + wav_chunk_header_size + le_value size) % 2 ^ 64 in
    if same_bytes chunk_id data_tag
    then offset (pos + wav_chunk_header_size)
    else (if ltb (length buffer) next_pos || ltb next_pos pos
        then offset default_wav_header_size
        else rest next_pos)
at_chunk buffer pos _ _ rest = out_of_bounds

-- The loop, on fuel.
unfoldable pub find_data : ℕ → List ℕ → ℕ → Outcome
find_data zero buffer pos = out_of_fuel
find_data (suc fuel) buffer pos =
    if ltb (pos + wav_chunk_header_size) (length buffer)
    then at_chunk buffer pos (bytes_at buffer pos 4) (bytes_at buffer (pos + 4) 4)
        (find_data fuel buffer)
    else offset default_wav_header_size

abbrev pub from_riff : ℕ → List ℕ → Option (List ℕ) → Outcome
from_riff fuel buffer none = out_of_bounds
from_riff fuel buffer (some tag) =
    if same_bytes tag riff_tag then find_data fuel buffer wav_chunk_offset else offset 0

unfoldable pub get_audio_data_offset : ℕ → List ℕ → Outcome
unfolding find_data
get_audio_data_offset fuel buffer =
    if ltb (length buffer) default_wav_header_size
    then offset default_wav_header_size
    else from_riff fuel buffer (bytes_at buffer 0 4)
