-- ===== src/Rtp/PacketUtils.antt =====
-- src/network/rtp/PacketUtils.hpp: a frame of samples becomes a packet in the output buffer.
use hermes_flow_server.Common.{
  ℕ, ◌+◌, ◌/◌, ◌<◌, ◌≤◌, ◌≡◌, ◌∙◌, List, ◌++◌, map, Option, length, take, drop, ltb, ◌==◌,
  if◌then◌else◌, All, arith, false, ltb-false, length-map, length-take, length-drop, length-append,
  take-append,
}
use hermes_flow_server.Audio.Pcm.{as_samples, length-as_samples}
use hermes_flow_server.Audio.Alaw.{encode_sample, make_encode_table}
use hermes_flow_server.Audio.Codec.{encode, encode_lem}
use hermes_flow_server.Rtp.Packet.Parse.{done, from_buffer}
use hermes_flow_server.Rtp.Packetizer.{
  RtpPacketizer, Encryption, protect, packetize, next_index, advance_sequence, update_timestamp,
}
use hermes_flow_server.Rtp.Packetizer.Index.{InRange}
use hermes_flow_server.Rtp.Packetizer.Packets.{Formatted, packet_of, packetize_fits}

abbrev pub rtp_header_size : ℕ
rtp_header_size = 12

-- The payload is encoded in place, behind the room for the header, and packetized from there. The
-- header's 12 bytes do not meet it, so it is handed on as a value.
unfoldable pub packet_to_rtp :
    List ℕ → Option Encryption → RtpPacketizer → List ℕ → List ℕ → ℕ × List ℕ × RtpPacketizer
packet_to_rtp table encryptor packetizer pcm_frame out_buffer =
    if ltb (length out_buffer) rtp_header_size
    then (0, out_buffer, packetizer)
    else (let (encoded_size, payload_buffer) =
          encode table pcm_frame (drop rtp_header_size out_buffer) in
        let filled = take rtp_header_size out_buffer ++ payload_buffer in
        if encoded_size == 0
        then (0, filled, packetizer)
        else packetize encryptor packetizer (take encoded_size payload_buffer) filled)

-- Encryption in place keeps the length of what it encrypts.
abbrev pub KeepsLength : Option Encryption → Type 0
KeepsLength e = (payload : List ℕ) (index : ℕ) → length (protect e payload index) ≡ length payload

encoded_length : (pcm : List ℕ) → length (map encode_sample (as_samples pcm)) ≡ length pcm / 2
encoded_length pcm = omega (arith, length-map (as_samples pcm) encode_sample, length-as_samples pcm)

-- The buffer once the frame was encoded behind the room for the header.
abbrev filled_buffer : List ℕ → List ℕ → List ℕ
filled_buffer pcm out =
    take 12 out ++ (map encode_sample (as_samples pcm) ++ drop (length pcm / 2) (drop 12 out))

length-filled_buffer :
    (pcm out : List ℕ)
    → 12 + length pcm / 2 ≤ length out
    → length (filled_buffer pcm out) ≡ length out
length-filled_buffer pcm out room = omega (
  arith,
  length-append (take 12 out)
      (map encode_sample (as_samples pcm) ++ drop (length pcm / 2) (drop 12 out)),
  length-append (map encode_sample (as_samples pcm)) (drop (length pcm / 2) (drop 12 out)),
  length-take 12 out,
  length-drop 12 out,
  length-drop (length pcm / 2) (drop 12 out),
  encoded_length pcm,
)

packet_to_rtp-eq :
    (garbage : List ℕ) (e : Option Encryption) (p : RtpPacketizer) (pcm out : List ℕ)
    → length garbage ≡ 65536
    → All (λ b. b < 256) pcm
    → 0 < length pcm / 2
    → 12 + length pcm / 2 ≤ length out
    → packet_to_rtp (make_encode_table garbage) e p pcm out
      ≡ packetize e p (map encode_sample (as_samples pcm)) (filled_buffer pcm out)
unfolding packet_to_rtp
packet_to_rtp-eq garbage e p pcm out g b some_samples room =
    let encoded = map encode_sample (as_samples pcm) in
    let body = drop 12 out in
    let n : ℕ = length pcm / 2 in
    let small : ltb (length out) 12 ≡ false = ltb-false (length out) 12 (omega arith) in
    let fits : ltb (length body) n ≡ false =
      ltb-false (length body) n (omega (arith, length-drop 12 out)) in
    let some_size : (n == 0) ≡ false = ground arith in
    let whole : n ≡ length encoded = omega (arith, encoded_length pcm) in
    rw (
      small,
      encode_lem garbage pcm body g b,
      fits,
      some_size,
      take-append n encoded (drop n body) whole,
    )

-- A frame that holds a sample and fits the buffer gives a packet with one byte for each sample,
-- from which the receiver reads back this packet's header and the protected A-law bytes.
pub packet_to_rtp_lem :
    (garbage : List ℕ) (e : Option Encryption) (p : RtpPacketizer) (pcm out : List ℕ)
    → length garbage ≡ 65536
    → All (λ b. b < 256) pcm
    → KeepsLength e
    → InRange p
    → Formatted p
    → 0 < length pcm / 2
    → 12 + length pcm / 2 ≤ length out
    → let (size, out', p') = packet_to_rtp (make_encode_table garbage) e p pcm out in
      (size ≡ 12 + length pcm / 2)
      × (from_buffer (take size out') ≡ done (packet_of e p (map encode_sample (as_samples pcm))))
      × (length out' ≡ length out)
      × (p' ≡ update_timestamp (advance_sequence p))
packet_to_rtp_lem garbage e p pcm out g b k v f some_samples room =
    let encoded = map encode_sample (as_samples pcm) in
    let size : length (protect e encoded (next_index p)) ≡ length pcm / 2 =
      omega (arith, k encoded (next_index p), encoded_length pcm) in
    let len = length-filled_buffer pcm out room in
    let r = packetize_fits e p encoded (filled_buffer pcm out) v f (omega arith) in
    rw (packet_to_rtp-eq garbage e p pcm out g b some_samples room)
      (omega arith, r.1, r.2 ∙ len, r.3)
