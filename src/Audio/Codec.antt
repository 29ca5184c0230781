-- ===== src/Audio/Codec.antt =====
-- src/infra/audio/CodecStrategy.hpp: the A-law codec over byte buffers.
use hermes_flow_server.Common.{
  ℕ, ◌/◌, ◌%◌, ◌^◌, ◌<◌, ◌≡◌, List, [], ◌∷◌, ◌++◌, map, length, drop, ltb, if◌then◌else◌, All,
  arith, Bool-cases, inl, inr,
}
use hermes_flow_server.Audio.Pcm.{as_samples, length-as_samples, IsInt16}
use hermes_flow_server.Audio.Alaw.{encode_sample, encode_alaw, make_encode_table}
use hermes_flow_server.Audio.Alaw.Tables.{encode_alaw_lem}

-- `ALawCodecStrategy::encode`: the number of bytes written, and the output buffer. `table` is the
-- one that `encode_alaw` made at its first call.
unfoldable pub encode : List ℕ → List ℕ → List ℕ → ℕ × List ℕ
encode table pcm out_buffer =
    let sample_count = length pcm / 2 in
    if ltb (length out_buffer) sample_count
    then (0, out_buffer)
    else (sample_count, encode_alaw table (as_samples pcm) out_buffer)

abbrev pub get_payload_type : ℕ
get_payload_type = 8

abbrev pub get_timestamp_increment : ℕ → ℕ
get_timestamp_increment pcm_byte_size = pcm_byte_size / 2 % 2 ^ 32

as_samples-IsInt16 : (bytes : List ℕ) → All (λ b. b < 256) bytes → All IsInt16 (as_samples bytes)
unfolding as_samples
as_samples-IsInt16 [] h = tt
as_samples-IsInt16 (lo ∷ []) h = tt
as_samples-IsInt16 (lo ∷ hi ∷ rest) h = (ground arith, as_samples-IsInt16 rest h.1.1)

-- One byte for each whole sample, in order, at the front of the output, where it has room; else
-- nothing is written.
pub encode_lem :
    (garbage pcm out : List ℕ)
    → length garbage ≡ 65536
    → All (λ b. b < 256) pcm
    → encode (make_encode_table garbage) pcm out ≡ (
        if ltb (length out) (length pcm / 2)
        then (0, out)
        else (length pcm / 2, map encode_sample (as_samples pcm) ++ drop (length pcm / 2) out))
unfolding encode
encode_lem garbage pcm out g h = elim (Bool-cases (ltb (length out) (length pcm / 2))) [
  | inl e ↦ rw e
  | inr e ↦
      let n = length-as_samples pcm in
      rw (e, encode_alaw_lem garbage (as_samples pcm) out g (as_samples-IsInt16 pcm h), n, e)
]
