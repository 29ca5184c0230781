-- ===== src/Tests/Rtp.antt =====
-- Packets, packetizers and streamers at concrete inputs.
use hermes_flow_server.Common.{
  ℕ, zero, suc, ◌+◌, ◌-◌, ap, ◌/◌, ◌%◌, ◌<◌, ◌≡◌, ◌≢◌, refl, Bool, true, false, List, [], ◌∷◌,
  Option, none, some, length, take, drop, map, replicate, get_or, arith, All, ltb, length-map, ◌^◌,
  ◌==◌, if◌then◌else◌,
}
use hermes_flow_server.Rtp.Packet.{RtpPacket, Header}
use hermes_flow_server.Rtp.Packet.Wire.{IsWire, to_buffer, buffer_size}
use hermes_flow_server.Rtp.Packet.Parse.{done, from_buffer}
use hermes_flow_server.Rtp.Packet.RoundTrip.{from_buffer-to_buffer}
use hermes_flow_server.Rtp.Packet.Exact.{from_buffer_exact, Parsed}
use hermes_flow_server.Rtp.Packet.Reads.{Ensures}
use hermes_flow_server.Rtp.Packetizer.{
  RtpPacketizer, Encryption, next_index, run, update_timestamp, advance_sequence,
}
use hermes_flow_server.Rtp.Packetizer.Index.{InRange, extended, next_index_lem, next_index-run-ne}
use hermes_flow_server.Rtp.Packetizer.Packets.{Formatted, packet_of}
use hermes_flow_server.Rtp.PacketUtils.{packet_to_rtp, KeepsLength, packet_to_rtp_lem}
use hermes_flow_server.Rtp.Streamer.{Endpoint, RtpStreamer, create, send_frame}
use hermes_flow_server.Rtp.Streamer.Ring.{IsRing}
use hermes_flow_server.Rtp.Streamer.Frames.{to_all, send_frame_lem}
use hermes_flow_server.Audio.Pcm.{as_samples}
use hermes_flow_server.Audio.Alaw.{encode_sample, make_encode_table}
use hermes_flow_server.Buffer.{zeros, length-zeros}

abbrev header : Header
header = record {
  padding = false;
  version = 2;
  payload_type = 8;
  marker = true;
  sequence_num = 4660;
  timestamp = 160;
  ssrc = 3735928559;
  csrc_list = 7 ∷ 9 ∷ [];
  extension = some (record { id = 48862; words = 1 ∷ [] });
}

abbrev packet : RtpPacket
packet = record { header = header; payload = 213 ∷ 84 ∷ [] }

packet-IsWire : IsWire packet
packet-IsWire = record {
  version_lt = omega arith;
  payload_type_lt = omega arith;
  sequence_num_lt = omega arith;
  timestamp_lt = omega arith;
  ssrc_lt = omega arith;
  csrc_count = omega arith;
  csrc_lt = omega arith;
  extension_fits = omega arith;
}

abbrev out : List ℕ
out = replicate 40 0

from_buffer-to_buffer_example :
    let (span, buf') = to_buffer packet out in
    (span ≡ some (buffer_size packet))
    × (from_buffer (take (buffer_size packet) buf') ≡ done packet)
    × (drop (buffer_size packet) buf' ≡ drop (buffer_size packet) out)
    × (length buf' ≡ length out)
unfolding buffer_size
from_buffer-to_buffer_example = from_buffer-to_buffer packet out packet-IsWire (omega arith)

abbrev bytes : List ℕ
bytes = 128 ∷ 8 ∷ 0 ∷ 1 ∷ 0 ∷ 0 ∷ 0 ∷ 160 ∷ 0 ∷ 0 ∷ 0 ∷ 5 ∷ 213 ∷ []

from_buffer_exact_example : Ensures (Parsed bytes) (from_buffer bytes)
from_buffer_exact_example = from_buffer_exact bytes (ground arith)

abbrev pub packetizer : RtpPacketizer
packetizer = record {
  payload_type = 8;
  ssrc = 5;
  sequence_num = 65535;
  roc = 0;
  timestamp = 320;
  timestamp_increment = 160;
}

pub packetizer-InRange : InRange packetizer
packetizer-InRange = record {
  sequence_num_lt = omega arith;
  roc_lt = omega arith;
  timestamp_lt = omega arith;
}

pub packetizer-Formatted : Formatted packetizer
packetizer-Formatted = record { payload_type_lt = omega arith; ssrc_lt = omega arith }

abbrev calls : List (List ℕ × List ℕ)
calls = (213 ∷ [], out) ∷ (84 ∷ [], []) ∷ []

next_index_lem_example : next_index packetizer ≡ (
    if packetizer.sequence_num == 65535
    then (extended packetizer + 65536) % 2 ^ 48
    else extended packetizer)
next_index_lem_example = next_index_lem packetizer packetizer-InRange

next_index-run-ne_example : next_index (run none packetizer calls) ≢ next_index packetizer
next_index-run-ne_example =
    next_index-run-ne none packetizer calls packetizer-InRange (omega arith) (omega arith)

abbrev pcm : List ℕ
pcm = 0 ∷ 1 ∷ 255 ∷ 255 ∷ []

-- An encryption that keeps the length of what it encrypts.
abbrev mask : Option Encryption
mask = some (λ payload index. map (λ b. 255 - b) payload)

mask-KeepsLength : KeepsLength mask
mask-KeepsLength payload index = length-map payload (λ b. 255 - b)

packet_to_rtp_lem_example :
    let (size, out', p') =
      packet_to_rtp (make_encode_table (zeros 65536)) mask packetizer pcm out in
    (size ≡ 12 + length pcm / 2)
    × (from_buffer (take size out')
        ≡ done (packet_of mask packetizer (map encode_sample (as_samples pcm))))
    × (length out' ≡ length out)
    × (p' ≡ update_timestamp (advance_sequence packetizer))
packet_to_rtp_lem_example =
    packet_to_rtp_lem (zeros 65536) mask packetizer pcm out (length-zeros 65536) (omega arith)
      mask-KeepsLength packetizer-InRange packetizer-Formatted (omega arith) (omega arith)

abbrev pub alice : Endpoint
alice = record { address = 1; port = 5004 }

-- A ratio is the share of packets that are lost, in percent.
abbrev pub streamer : RtpStreamer ℕ
streamer = record (create ℕ packetizer) {
  clients = record { endpoint = alice; packet_loss_ratio = 0 } ∷ [];
}

abbrev pub is_positive : ℕ → Bool
is_positive ratio = ltb 0 ratio

abbrev pub below : ℕ → ℕ → Bool
below draw ratio = ltb (draw % 100) ratio

pub streamer-IsRing : IsRing streamer
unfolding create
streamer-IsRing = record { slots = refl; in_ring = omega arith }

pub zeros-All : (n : ℕ) → All (λ b. b < 256) (zeros n)
unfolding zeros
zeros-All zero = tt
zeros-All (suc n) = (omega arith, zeros-All n)

send_frame_lem_example :
    let (sends, s') =
      send_frame is_positive below (make_encode_table (zeros 65536)) streamer (zeros 320) in
    (sends ≡ to_all is_positive below streamer.ring_index streamer.clients)
    × (from_buffer (take 172 (get_or s'.packet_ring streamer.ring_index []))
        ≡ done (
            packet_of streamer.encryptor streamer.packetizer
              (map encode_sample (as_samples (zeros 320)))))
    × (s'.packetizer ≡ update_timestamp (advance_sequence streamer.packetizer))
unfolding create
send_frame_lem_example =
    send_frame_lem is_positive below (zeros 65536) streamer (zeros 320) (length-zeros 65536)
      (length-zeros 320) (zeros-All 320) streamer-IsRing refl (λ payload index. refl)
      packetizer-InRange packetizer-Formatted (λ e. omega (arith, ap length e)) (refl, tt)
