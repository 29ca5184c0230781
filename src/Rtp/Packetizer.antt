-- ===== src/Rtp/Packetizer.antt =====
-- src/network/rtp/RTPPacketizer.cpp: sequence numbers, the roll-over counter and timestamps.
pub mod Index
pub mod Packets
use hermes_flow_server.Common.{
  ℕ, bit_or, ◌+◌, ◌*◌, ◌%◌, ◌^◌, ◌==◌, if◌then◌else◌, false, List, [], Option, none, some, ◌∷◌,
  ◌++◌,
}
use hermes_flow_server.Rtp.Packet.{Header, RtpPacket, minimum_header_size}
use hermes_flow_server.Rtp.Packet.Wire.{to_buffer}

pub record RtpPacketizer : Type 0 where
  pub payload_type : ℕ
  pub ssrc : ℕ
  pub sequence_num : ℕ
  pub roc : ℕ
  pub timestamp : ℕ
  pub timestamp_increment : ℕ

-- `IEncryptionStrategy::encrypt`: the payload and the packet index give the bytes left in place.
abbrev pub Encryption : Type 0
Encryption = List ℕ → ℕ → List ℕ

-- `version_`
abbrev pub rtp_version : ℕ
rtp_version = 2

-- `sequence_num_++`, and `roc_++` where that came round to 0.
unfoldable pub advance_sequence : RtpPacketizer → RtpPacketizer
advance_sequence p =
    let next = (p.sequence_num + 1) % 2 ^ 16 in
    record p { sequence_num = next; roc = if next == 0 then (p.roc + 1) % 2 ^ 32 else p.roc }

unfoldable pub update_timestamp : RtpPacketizer → RtpPacketizer
update_timestamp p = record p { timestamp = (p.timestamp + p.timestamp_increment) % 2 ^ 32 }

abbrev pub current_header : RtpPacketizer → Header
current_header p = record {
  padding = false;
  version = rtp_version;
  payload_type = p.payload_type;
  marker = false;
  sequence_num = p.sequence_num;
  timestamp = p.timestamp;
  ssrc = p.ssrc;
  csrc_list = [];
  extension = none;
}

-- `(static_cast<uint64_t>(roc_) << ROC_SHIFT) | current_seq`.
unfoldable pub packet_index : ℕ → ℕ → ℕ
packet_index roc current_seq = bit_or (roc * 2 ^ 16) current_seq

-- The index under which the next packet is encrypted: with the number that the packet carries, and the
-- roll-over counter as `advance_sequence` leaves it.
unfoldable pub next_index : RtpPacketizer → ℕ
unfolding advance_sequence
next_index p = packet_index (advance_sequence p).roc p.sequence_num

abbrev pub protect : Option Encryption → List ℕ → ℕ → List ℕ
protect none payload index = payload
protect (some encrypt) payload index = encrypt payload index

-- What `packetize` returns once the packet was written, or was too long for the buffer.
unfoldable pub finish : RtpPacketizer → Option ℕ × List ℕ → ℕ × List ℕ × RtpPacketizer
unfolding update_timestamp
finish p (none, buffer) = (0, buffer, p)
finish p (some size, buffer) = (size, buffer, update_timestamp p)

-- The size returned (0 where the buffer is too small), the buffer and the packetizer afterwards.
-- `roc` is read after it was counted up, and the header was filled before.
unfoldable pub packetize :
    Option Encryption → RtpPacketizer → List ℕ → List ℕ → ℕ × List ℕ × RtpPacketizer
unfolding advance_sequence
packetize encryption p payload out_buffer =
    let p' = advance_sequence p in
    let bytes = protect encryption payload (next_index p) in
    finish p' (to_buffer (record { header = current_header p; payload = bytes }) out_buffer)

-- The packetizer after a list of calls, each a payload and a buffer.
unfoldable pub run : Option Encryption → RtpPacketizer → List (List ℕ × List ℕ) → RtpPacketizer
run encryption p [] = p
run encryption p ((payload, buffer) ∷ calls) =
    let (size, buffer', p') = packetize encryption p payload buffer in run encryption p' calls
