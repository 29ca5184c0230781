-- ===== src/Rtp/Packet/Overflow.antt =====
-- src/network/rtp/Packet.cpp: a packet with more contributing sources than the format can count.
use hermes_flow_server.Common.{
  ℕ, ◌<◌, ◌≢◌, List, [], ◌∷◌, ◌++◌, Option, none, some, length, take, drop, All-append, arith,
}
use hermes_flow_server.Rtp.Packet.{Extension, Header, RtpPacket, first_octet, second_octet}
use hermes_flow_server.Rtp.Packet.Wire.{
  be32s, extension_bytes, packet_bytes, packet_bytes-eq-stream, stream,
}
use hermes_flow_server.Rtp.Packet.Parse.{done, from_buffer}
use hermes_flow_server.Rtp.Packet.Reads.{AreBytes}
use hermes_flow_server.Rtp.Packet.Exact.{Parsed, from_buffer_exact}

first_octet-lt : (h : Header) → first_octet h < 256
first_octet-lt h = ground arith

second_octet-lt : (h : Header) → second_octet h < 256
second_octet-lt h = ground arith

be32s-AreBytes : (ws tail : List ℕ) → AreBytes tail → AreBytes (be32s ws ++ tail)
unfolding be32s
be32s-AreBytes [] tail t = t
be32s-AreBytes (w ∷ ws) tail t =
    (omega arith, (omega arith, (omega arith, (omega arith, be32s-AreBytes ws tail t))))

extension_bytes-AreBytes :
    (e : Option Extension) (tail : List ℕ) → AreBytes tail → AreBytes (extension_bytes e ++ tail)
unfolding extension_bytes
extension_bytes-AreBytes none tail t = t
extension_bytes-AreBytes (some e) tail t =
    (omega arith, (omega arith, (omega arith, (omega arith, be32s-AreBytes e.words tail t))))

packet_bytes-AreBytes : (p : RtpPacket) → AreBytes p.payload → AreBytes (packet_bytes p)
packet_bytes-AreBytes p b =
    let tail =
      be32s-AreBytes p.header.csrc_list _
        (extension_bytes-AreBytes p.header.extension p.payload b) in
    let first = first_octet-lt p.header in
    let second = second_octet-lt p.header in
    let head : AreBytes (take 12 (stream p)) = omega arith in
    rw (packet_bytes-eq-stream p)
      (All-append (λ b. b < 256) (take 12 (stream p)) (drop 12 (stream p)) head tail)

-- A packet of bytes with more than 15 contributing sources is not read back as it was written.
pub csrc_overflow :
    (p : RtpPacket)
    → AreBytes p.payload
    → 15 < length p.header.csrc_list
    → from_buffer (packet_bytes p) ≢ done p
csrc_overflow p b h e =
    let r : Parsed (packet_bytes p) p =
      rw e at (from_buffer_exact (packet_bytes p) (packet_bytes-AreBytes p b)) in
    omega (arith, r.wire.csrc_count)
