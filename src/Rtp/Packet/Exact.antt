-- ===== src/Rtp/Packet/Exact.antt =====
-- src/network/rtp/Packet.cpp, `RTPPacket::from_buffer` on any bytes: no read leaves the buffer, and
-- what is accepted is the packet that the bytes stand for.
use hermes_flow_server.Common.{
  ℕ, suc, ◌+◌, ◌*◌, ◌/◌, ◌%◌, ◌≤◌, ◌<◌, ◌≡◌, refl, ap, ◌∙◌, inl, inr, List, [], ◌∷◌, ◌++◌, length,
  ltb, le_of_ltb-false, arith, Bool-cases, length-append,
}
use hermes_flow_server.Rtp.Packet.{
  Header, RtpPacket, ext_flag, first_octet, second_octet, minimum_header_size,
}
use hermes_flow_server.Rtp.Packet.Wire.{
  be16, be32, be32s, extension_bytes, packet_bytes, IsWire, packet_bytes-eq-stream, length-be32s,
}
use hermes_flow_server.Rtp.Packet.Parse.{read_extension, flag, read_fields, from_buffer}
use hermes_flow_server.Rtp.Packet.Reads.{
  AreBytes, Ensures, bind_step, read_u8_step, read_u16_step, read_u32_step, read_u32s_step,
  ExtensionRead, read_extension_lem,
}

-- How the first two octets give the header's small fields.
record Octets (o1 o2 : ℕ) (h : Header) : Type 0 where
  first_lt : o1 < 256
  second_lt : o2 < 256
  count : length h.csrc_list ≡ o1 % 16
  present : ext_flag h.extension ≡ o1 / 16 % 2
  padding : h.padding ≡ flag (o1 / 32 % 2)
  version : h.version ≡ o1 / 64
  payload_type : h.payload_type ≡ o2 % 128
  marker : h.marker ≡ flag (o2 / 128)

Octets_lem :
    (o1 o2 : ℕ) (h : Header) → Octets o1 o2 h → (first_octet h ≡ o1) × (second_octet h ≡ o2)
Octets_lem o1 o2 h o = ground arith

-- What an accepted buffer is.
pub record Parsed (buffer : List ℕ) (p : RtpPacket) : Type 0 where
  pub wire : IsWire p
  pub bytes : packet_bytes p ≡ buffer

packet_bytes_back :
    (p : RtpPacket) (o1 o2 : ℕ) (rest b2 b3 b4 b5 b6 : List ℕ)
    → Octets o1 o2 p.header
    → rest ≡ o2 ∷ b2
    → b2 ≡ be16 p.header.sequence_num ++ b3
    → b3 ≡ be32 p.header.timestamp ++ b4
    → b4 ≡ be32 p.header.ssrc ++ b5
    → b5 ≡ be32s p.header.csrc_list ++ b6
    → b6 ≡ extension_bytes p.header.extension ++ p.payload
    → packet_bytes p ≡ o1 ∷ rest
packet_bytes_back p o1 o2 rest b2 b3 b4 b5 b6 o e2 e3 e4 e5 e6 x =
    let (first, second) = Octets_lem o1 o2 p.header o in
    packet_bytes-eq-stream p ∙ rw (e2, e3, e4, e5, e6, x, first, second)

read_fields_lem :
    (o1 size : ℕ) (rest : List ℕ)
    → o1 < 256
    → AreBytes rest
    → size ≡ suc (length rest)
    → minimum_header_size + o1 % 16 * 4 ≤ size
    → Ensures (Parsed (o1 ∷ rest)) (read_fields size (minimum_header_size + o1 % 16 * 4) o1 rest)
unfolding read_fields
read_fields_lem o1 size rest l b s room = read_u8_step P rest _ b (omega arith) λ o2 b2 l2 a2 e2.
    read_u16_step P b2 _ a2 (omega (arith, ap length e2)) λ sq b3 hs a3 e3.
      read_u32_step P b3 _ a3 (omega (arith, ap length e2, ap length e3)) λ ts b4 ht a4 e4.
        read_u32_step P b4 _ a4 (omega (arith, ap length e2, ap length e3, ap length e4))
          λ ss b5 hss a5 e5.
            read_u32s_step P (o1 % 16) b5 _ a5
              (omega (arith, ap length e2, ap length e3, ap length e4, ap length e5))
              λ cs b6 n hc a6 e6.
                bind_step (ExtensionRead (o1 / 16 % 2) b6) P
                  (read_extension (flag (o1 / 16 % 2)) size (minimum_header_size + o1 % 16 * 4) b6)
                  _
                  (read_extension_lem (o1 / 16 % 2) size _ b6 (omega arith) a6 (
                    omega (
                      arith,
                      ap length e2,
                      ap length e3,
                      ap length e4,
                      ap length e5,
                      ap length e6,
                      length-append (be32s cs) b6,
                      length-be32s cs,
                    )))
                  λ r x. record {
                    wire = record {
                      version_lt = omega arith;
                      payload_type_lt = omega arith;
                      sequence_num_lt = hs;
                      timestamp_lt = ht;
                      ssrc_lt = hss;
                      csrc_count = omega arith;
                      csrc_lt = hc;
                      extension_fits = x.fits;
                    };
                    bytes =
                        packet_bytes_back _ o1 o2 rest b2 b3 b4 b5 b6
                          (record {
                            first_lt = l;
                            second_lt = l2;
                            count = n;
                            present = x.present;
                            padding = refl;
                            version = refl;
                            payload_type = refl;
                            marker = refl;
                          })
                          e2 e3 e4 e5 e6 x.splits;
                  }
  where
    P : RtpPacket → Type 0
    P = Parsed (o1 ∷ rest)

-- Whatever bytes arrive, `from_buffer` reads only inside the buffer, and a packet that it accepts
-- fits the format and is written as exactly those bytes.
pub from_buffer_exact :
    (buffer : List ℕ) → AreBytes buffer → Ensures (Parsed buffer) (from_buffer buffer)
unfolding from_buffer
from_buffer_exact [] b = tt
from_buffer_exact (o1 ∷ rest) b = elim (Bool-cases (ltb (suc (length rest)) 12)) [
  | inl e ↦ rw e tt
  | inr e ↦ rw e (elim (Bool-cases (ltb (suc (length rest)) (12 + o1 % 16 * 4))) [
    | inl f ↦ rw f tt
    | inr f ↦
        rw f (read_fields_lem o1 (suc (length rest)) rest b.0 b.1 refl (le_of_ltb-false _ _ f))
  ])
]
