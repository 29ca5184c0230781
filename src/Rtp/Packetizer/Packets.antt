-- ===== src/Rtp/Packetizer/Packets.antt =====
-- src/network/rtp/RTPPacketizer.cpp: the packet that `packetize` leaves in the buffer.
use hermes_flow_server.Common.{
  ℕ, ◌+◌, ◌^◌, ◌<◌, ◌≤◌, ◌≡◌, refl, List, Option, none, some, length, take, arith,
}
use hermes_flow_server.Rtp.Packet.{RtpPacket}
use hermes_flow_server.Rtp.Packet.Wire.{IsWire, to_buffer, buffer_size}
use hermes_flow_server.Rtp.Packet.Parse.{done, from_buffer}
use hermes_flow_server.Rtp.Packet.RoundTrip.{from_buffer-to_buffer}
use hermes_flow_server.Rtp.Packetizer.{
  RtpPacketizer, Encryption, current_header, protect, advance_sequence, update_timestamp, finish,
  packetize, next_index,
}
use hermes_flow_server.Rtp.Packetizer.Index.{InRange}

-- What the format needs of the values that do not change.
pub record Formatted (p : RtpPacketizer) : Type 0 where
  pub payload_type_lt : p.payload_type < 128
  pub ssrc_lt : p.ssrc < 2 ^ 32

-- The packet that a call is to send.
abbrev pub packet_of : Option Encryption → RtpPacketizer → List ℕ → RtpPacket
packet_of e p payload = record {
  header = current_header p;
  payload = protect e payload (next_index p);
}

packet_of-IsWire :
    (e : Option Encryption) (p : RtpPacketizer) (payload : List ℕ)
    → InRange p
    → Formatted p
    → IsWire (packet_of e p payload)
packet_of-IsWire e p payload v f = record {
  version_lt = omega arith;
  payload_type_lt = f.payload_type_lt;
  sequence_num_lt = v.sequence_num_lt;
  timestamp_lt = v.timestamp_lt;
  ssrc_lt = f.ssrc_lt;
  csrc_count = omega arith;
  csrc_lt = tt;
  extension_fits = tt;
}

packetize-eq :
    (e : Option Encryption) (p : RtpPacketizer) (payload out : List ℕ)
    → packetize e p payload out
      ≡ finish (advance_sequence p) (to_buffer (packet_of e p payload) out)
unfolding packetize next_index
packetize-eq e p payload out = refl

finish-some :
    (q : RtpPacketizer) (r : Option ℕ × List ℕ) (n : ℕ)
    → r.0 ≡ some n
    → finish q r ≡ (n, r.1, update_timestamp q)
unfolding finish
finish-some q (none, b) n h = cc
finish-some q (some m, b) n h = ground arith

buffer_size-packet_of :
    (e : Option Encryption) (p : RtpPacketizer) (payload : List ℕ)
    → buffer_size (packet_of e p payload) ≡ 12 + length (protect e payload (next_index p))
unfolding buffer_size
buffer_size-packet_of e p payload = omega arith

-- A call whose packet fits returns the packet's size and leaves a buffer from which the receiver
-- reads back the header of this packet with the protected payload; sequence number and timestamp
-- move on.
pub packetize_fits :
    (e : Option Encryption) (p : RtpPacketizer) (payload out : List ℕ)
    → InRange p
    → Formatted p
    → 12 + length (protect e payload (next_index p)) ≤ length out
    → let (size, out', p') = packetize e p payload out in
      (size ≡ 12 + length (protect e payload (next_index p)))
      × (from_buffer (take size out') ≡ done (packet_of e p payload))
      × (length out' ≡ length out)
      × (p' ≡ update_timestamp (advance_sequence p))
packetize_fits e p payload out v f room =
    let r =
      from_buffer-to_buffer (packet_of e p payload) out (packet_of-IsWire e p payload v f)
        (rw buffer_size-packet_of room) in
    let size = buffer_size-packet_of e p payload in
    rw
      (
        packetize-eq e p payload out,
        finish-some (advance_sequence p) (to_buffer (packet_of e p payload) out) _ r.0,
      )
      (size, r.1, r.3, refl)
