-- ===== src/Tests/Audio.antt =====
-- Samples, codecs and initial vectors at concrete inputs.
use hermes_flow_server.Common.{
  ℕ, ◌+◌, ◌/◌, ◌≤◌, ◌≡◌, ◌≢◌, refl, List, [], ◌∷◌, ◌++◌, length, drop, map, arith, if◌then◌else◌,
  ltb, max, replicate,
}
use hermes_flow_server.Common.Int.{ℤ, pos, negsuc}
use hermes_flow_server.Audio.Alaw.{
  encode_sample, decode_sample, make_encode_table, make_decode_table, encode_alaw, decode_alaw,
}
use hermes_flow_server.Audio.Alaw.Expand.{encode_sample-decode_sample, decode_encode_near}
use hermes_flow_server.Audio.Alaw.Tables.{encode_alaw_lem, decode_alaw_lem}
use hermes_flow_server.Crypto.{current_iv}
use hermes_flow_server.Crypto.Vectors.{current_iv-ne}
use hermes_flow_server.Buffer.{zeros, length-zeros}

abbrev bytes : List ℕ
bytes = 0 ∷ 1 ∷ 255 ∷ 255 ∷ 7 ∷ []

encode_sample-decode_sample_example : encode_sample (decode_sample 213) ≡ 213
encode_sample-decode_sample_example = encode_sample-decode_sample 213 (omega arith)

decode_encode_near_example :
    (d : ℕ) × (decode_sample (encode_sample (pos 1000)) ≡ pos d)
    × (d ≤ 1000 + max 8 (1000 / 32))
    × (1000 ≤ d + max 8 (1000 / 32))
decode_encode_near_example = decode_encode_near 1000 (omega arith)

abbrev samples : List ℤ
samples = pos 0 ∷ pos 1000 ∷ negsuc 999 ∷ []

encode_alaw_lem_example : encode_alaw (make_encode_table (zeros 65536)) samples bytes ≡ (
    if ltb (length bytes) (length samples)
    then bytes
    else map encode_sample samples ++ drop (length samples) bytes)
encode_alaw_lem_example =
    encode_alaw_lem (zeros 65536) samples bytes (length-zeros 65536) (omega arith)

abbrev alaw : List ℕ
alaw = 213 ∷ 84 ∷ []

decode_alaw_lem_example : decode_alaw (make_decode_table (zeros 256)) alaw samples ≡ (
    if ltb (length samples) (length alaw)
    then samples
    else map decode_sample alaw ++ drop (length alaw) samples)
decode_alaw_lem_example = decode_alaw_lem (zeros 256) alaw samples (length-zeros 256) (omega arith)

abbrev base_iv : List ℕ
base_iv = replicate 16 170

current_iv-ne_example : current_iv base_iv 65535 ≢ current_iv base_iv 65536
current_iv-ne_example =
    current_iv-ne base_iv 65535 65536 refl (omega arith) (omega arith) (omega arith) (omega arith)
