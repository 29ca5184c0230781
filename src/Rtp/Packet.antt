-- ===== src/Rtp/Packet.antt =====
-- src/network/rtp/Packet.hpp and Packet.cpp: an RTP packet and its two directions.
pub mod Wire
pub mod Parse
pub mod RoundTrip
pub mod Reads
pub mod Exact
pub mod Overflow
use hermes_flow_server.Common.{
  ℕ, ◌+◌, ◌*◌, ◌%◌, Bool, true, false, List, [], ◌∷◌, ◌++◌, Option, none, some, length,
}

pub record Extension : Type 0 where
  pub id : ℕ
  pub words : List ℕ

pub record Header : Type 0 where
  pub padding : Bool
  pub version : ℕ
  pub payload_type : ℕ
  pub marker : Bool
  pub sequence_num : ℕ
  pub timestamp : ℕ
  pub ssrc : ℕ
  pub csrc_list : List ℕ
  pub extension : Option Extension

pub record RtpPacket : Type 0 where
  pub header : Header
  pub payload : List ℕ

abbrev pub minimum_header_size : ℕ
minimum_header_size = 12

abbrev pub minimum_extension_size : ℕ
minimum_extension_size = 4

-- The former SSRC joins the contributing sources.
abbrev pub add_ssrc : RtpPacket → ℕ → RtpPacket
add_ssrc p new_ssrc = record p {
  header = record header { csrc_list = header.csrc_list ++ header.ssrc ∷ []; ssrc = new_ssrc };
}
  where
    open p use {header}

-- A value stored in a bit field of width one.
abbrev pub bit : Bool → ℕ
bit true = 1
bit false = 0

-- `FirstOctet`: the fields from the low bits up, each cut to its width. The count goes through a
-- `uint8_t` first.
abbrev pub ext_flag : Option Extension → ℕ
ext_flag none = 0
ext_flag (some e) = 1

abbrev pub first_octet : Header → ℕ
first_octet h =
    length h.csrc_list % 256 % 16
    + 16 * ext_flag h.extension
    + 32 * bit h.padding
    + 64 * (h.version % 4)

abbrev pub second_octet : Header → ℕ
second_octet h = h.payload_type % 128 + 128 * bit h.marker
