-- ===== src/Rtp/Packet/Wire.antt =====
-- src/network/rtp/Packet.cpp, `RTPPacket::to_buffer`: the bytes that a packet is written as.
use hermes_flow_server.Common.{
  ℕ, ◌+◌, ◌*◌, ◌/◌, ◌%◌, ◌^◌, ◌<◌, ◌≡◌, List, [], ◌∷◌, ◌++◌, Option, none, some, length, drop, ltb,
  if◌then◌else◌, All, arith, length-append, append_assoc,
}
use hermes_flow_server.Rtp.Packet.{
  Extension, Header, RtpPacket, minimum_header_size, minimum_extension_size, first_octet,
  second_octet,
}

-- `htons` and `htonl`, as the bytes that the store leaves in the buffer.
abbrev pub be16 : ℕ → List ℕ
be16 n = (n / 256 % 256) ∷ (n % 256) ∷ []

abbrev pub be32 : ℕ → List ℕ
be32 n = (n / 16777216 % 256) ∷ (n / 65536 % 256) ∷ (n / 256 % 256) ∷ (n % 256) ∷ []

unfoldable pub be32s : List ℕ → List ℕ
be32s [] = []
be32s (w ∷ ws) = be32 w ++ be32s ws

unfoldable pub extension_bytes : Option Extension → List ℕ
extension_bytes none = []
extension_bytes (some e) = be16 e.id ++ (be16 (length e.words % 65536) ++ be32s e.words)

abbrev pub extension_size : Option Extension → ℕ
extension_size none = 0
extension_size (some e) = minimum_extension_size + length e.words * 4

unfoldable pub buffer_size : RtpPacket → ℕ
buffer_size p =
    minimum_header_size
    + length p.header.csrc_list * 4
    + extension_size p.header.extension
    + length p.payload

-- The stores, in the order of the code.
unfoldable pub header_bytes : Header → List ℕ
header_bytes h =
    first_octet h
    ∷ (second_octet h
        ∷ (be16 h.sequence_num
            ++ (be32 h.timestamp
                ++ (be32 h.ssrc ++ (be32s h.csrc_list ++ extension_bytes h.extension)))))

unfoldable pub packet_bytes : RtpPacket → List ℕ
packet_bytes p = header_bytes p.header ++ p.payload

-- The size of the returned span, which starts where the buffer does, and the buffer afterwards.
unfoldable pub to_buffer : RtpPacket → List ℕ → Option ℕ × List ℕ
to_buffer p packet_buffer =
    if ltb (length packet_buffer) (buffer_size p)
    then (none, packet_buffer)
    else (some (buffer_size p), packet_bytes p ++ drop (buffer_size p) packet_buffer)

abbrev pub Fits : Option Extension → Type 0
Fits none = Unit
Fits (some e) = (e.id < 2 ^ 16) × (length e.words < 2 ^ 16) × All (λ w. w < 2 ^ 32) e.words

-- A packet that the fields of the format can hold.
pub record IsWire (p : RtpPacket) : Type 0 where
  pub version_lt : p.header.version < 4
  pub payload_type_lt : p.header.payload_type < 128
  pub sequence_num_lt : p.header.sequence_num < 2 ^ 16
  pub timestamp_lt : p.header.timestamp < 2 ^ 32
  pub ssrc_lt : p.header.ssrc < 2 ^ 32
  pub csrc_count : length p.header.csrc_list < 16
  pub csrc_lt : All (λ w. w < 2 ^ 32) p.header.csrc_list
  pub extension_fits : Fits p.header.extension

pub length-be32s : (ws : List ℕ) → length (be32s ws) ≡ length ws * 4
unfolding be32s
length-be32s [] = omega arith
length-be32s (w ∷ ws) = omega (arith, length-be32s ws)

length-extension_bytes : (e : Option Extension) → length (extension_bytes e) ≡ extension_size e
unfolding extension_bytes
length-extension_bytes none = omega arith
length-extension_bytes (some e) = omega (arith, length-be32s e.words)

-- The bytes that are written are as many as the size check counted.
pub length-packet_bytes : (p : RtpPacket) → length (packet_bytes p) ≡ buffer_size p
unfolding packet_bytes header_bytes buffer_size
length-packet_bytes p = omega (
  arith,
  length-append (header_bytes p.header) p.payload,
  length-append (be32s p.header.csrc_list) (extension_bytes p.header.extension),
  length-be32s p.header.csrc_list,
  length-extension_bytes p.header.extension,
)

-- `packet_bytes`, bracketed to the right.
abbrev pub stream : RtpPacket → List ℕ
stream p =
    first_octet p.header
    ∷ (second_octet p.header
        ∷ (be16 p.header.sequence_num
            ++ (be32 p.header.timestamp
                ++ (be32 p.header.ssrc
                    ++ (be32s p.header.csrc_list
                        ++ (extension_bytes p.header.extension ++ p.payload))))))

pub packet_bytes-eq-stream : (p : RtpPacket) → packet_bytes p ≡ stream p
unfolding packet_bytes header_bytes
packet_bytes-eq-stream p =
    rw (append_assoc (be32s p.header.csrc_list) (extension_bytes p.header.extension) p.payload)
