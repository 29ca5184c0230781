-- ===== src/Rtp/Packet/RoundTrip.antt =====
-- src/network/rtp/Packet.cpp: what `to_buffer` writes and what `from_buffer` reads agree.
use hermes_flow_server.Common.{
  ℕ, ◌+◌, ◌*◌, ◌/◌, ◌%◌, ◌^◌, ◌≤◌, ◌<◌, ◌≡◌, refl, sym, List, [], ◌∷◌, ◌++◌, Option, none, some,
  length, take, drop, All, arith, length-append, take-append, drop-append, length-drop, ltb-false,
}
use hermes_flow_server.Rtp.Packet.{
  Extension, Header, RtpPacket, ext_flag, first_octet, second_octet, minimum_header_size,
}
use hermes_flow_server.Rtp.Packet.Wire.{
  be16, be32, be32s, extension_bytes, extension_size, buffer_size, packet_bytes, to_buffer, Fits,
  IsWire, length-packet_bytes, stream, packet_bytes-eq-stream,
}
use hermes_flow_server.Rtp.Packet.Parse.{
  done, read_u8, read_u16, read_u32, read_u32s, read_extension, flag, read_fields, from_buffer,
}

read_u16-be16 : (v : ℕ) (rest : List ℕ) → v < 2 ^ 16 → read_u16 (be16 v ++ rest) ≡ done (v, rest)
unfolding read_u16
read_u16-be16 v rest h = ground arith

read_u32-be32 : (v : ℕ) (rest : List ℕ) → v < 2 ^ 32 → read_u32 (be32 v ++ rest) ≡ done (v, rest)
unfolding read_u32
read_u32-be32 v rest h = ground arith

read_u32s-be32s :
    (ws rest : List ℕ)
    → All (λ w. w < 2 ^ 32) ws
    → read_u32s (length ws) (be32s ws ++ rest) ≡ done (ws, rest)
unfolding read_u32s be32s
read_u32s-be32s [] rest h = refl
read_u32s-be32s (w ∷ ws) rest h =
    rw (read_u32-be32 w (be32s ws ++ rest) h.0, read_u32s-be32s ws rest h.1)

read_extension-bytes :
    (e : Option Extension) (size expected : ℕ) (rest : List ℕ)
    → Fits e
    → expected + extension_size e ≤ size
    → read_extension (flag (ext_flag e)) size expected (extension_bytes e ++ rest) ≡ done (e, rest)
unfolding read_extension extension_bytes
read_extension-bytes none size expected rest f h = refl
read_extension-bytes (some e) size expected rest f h =
    let count : length e.words % 65536 ≡ length e.words = omega arith in
    rw (
      ltb-false size (expected + 4) (omega arith),
      count,
      read_u16-be16 e.id (be16 (length e.words) ++ (be32s e.words ++ rest)) f.0,
      read_u16-be16 (length e.words) (be32s e.words ++ rest) f.1,
      ltb-false size (expected + 4 + length e.words * 4) (omega arith),
      read_u32s-be32s e.words rest f.2,
    )

first_octet_fields :
    (h : Header)
    → h.version < 4
    → length h.csrc_list < 16
    → (first_octet h % 16 ≡ length h.csrc_list)
      × (first_octet h / 16 % 2 ≡ ext_flag h.extension)
      × (flag (first_octet h / 32 % 2) ≡ h.padding)
      × (first_octet h / 64 ≡ h.version)
first_octet_fields h v c = ground arith

second_octet_fields :
    (h : Header)
    → h.payload_type < 128
    → (second_octet h % 128 ≡ h.payload_type) × (flag (second_octet h / 128) ≡ h.marker)
second_octet_fields h v = ground arith

read_fields-stream :
    (p : RtpPacket) (size : ℕ)
    → IsWire p
    → buffer_size p ≤ size
    → read_fields size
        (minimum_header_size + length p.header.csrc_list * 4)
        (first_octet p.header)
        (drop 1 (stream p))
      ≡ done p
unfolding read_fields read_u8 buffer_size
read_fields-stream p size w s =
    let o1 = first_octet_fields p.header w.version_lt w.csrc_count in
    let o2 = second_octet_fields p.header w.payload_type_lt in
    let expected : ℕ = minimum_header_size + length p.header.csrc_list * 4 in
    let fits : expected + extension_size p.header.extension ≤ size = omega arith in
    rw (
      read_u16-be16 p.header.sequence_num _ w.sequence_num_lt,
      read_u32-be32 p.header.timestamp _ w.timestamp_lt,
      read_u32-be32 p.header.ssrc _ w.ssrc_lt,
      o1.0,
      read_u32s-be32s p.header.csrc_list _ w.csrc_lt,
      o1.1,
      read_extension-bytes p.header.extension size expected p.payload w.extension_fits fits,
      o1.2,
      o1.3,
      o2.0,
      o2.1,
    )

from_buffer-stream :
    (p : RtpPacket) (size : ℕ)
    → IsWire p
    → length (stream p) ≡ size
    → buffer_size p ≤ size
    → from_buffer (stream p) ≡ done p
unfolding from_buffer buffer_size
from_buffer-stream p size w e s =
    rw
      (
        e,
        ltb-false size 12 (omega arith),
        (first_octet_fields p.header w.version_lt w.csrc_count).0,
        ltb-false size (12 + length p.header.csrc_list * 4) (omega arith),
      )
      (read_fields-stream p size w s)

-- What a buffer holds of a packet that fits the format is read back as that packet.
pub from_buffer-packet_bytes : (p : RtpPacket) → IsWire p → from_buffer (packet_bytes p) ≡ done p
from_buffer-packet_bytes p w = rw (packet_bytes-eq-stream p) (
    from_buffer-stream p (buffer_size p) w
      (rw (packet_bytes-eq-stream p) at (length-packet_bytes p)) (omega arith))

-- A packet that fits the format, written to a buffer with room for it, is read back from the span
-- that `to_buffer` returns; the buffer keeps its length, and its bytes behind the span.
pub from_buffer-to_buffer :
    (p : RtpPacket) (buf : List ℕ)
    → IsWire p
    → buffer_size p ≤ length buf
    → let (span, buf') = to_buffer p buf in
      (span ≡ some (buffer_size p))
      × (from_buffer (take (buffer_size p) buf') ≡ done p)
      × (drop (buffer_size p) buf' ≡ drop (buffer_size p) buf)
      × (length buf' ≡ length buf)
unfolding to_buffer
from_buffer-to_buffer p buf w h =
    let size = length-packet_bytes p in
    let behind = drop (buffer_size p) buf in
    rw (ltb-false (length buf) (buffer_size p) h) (
      refl,
      rw (take-append (buffer_size p) (packet_bytes p) behind (sym size))
          (from_buffer-packet_bytes p w),
      drop-append (buffer_size p) (packet_bytes p) behind (sym size),
      omega (arith, length-append (packet_bytes p) behind, length-drop (buffer_size p) buf),
    )
