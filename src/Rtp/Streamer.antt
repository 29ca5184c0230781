-- ===== src/Rtp/Streamer.antt =====
-- src/network/rtp/RTPStreamer.hpp and RTPStreamer.cpp: the clients, the ring of packet buffers, and the
-- fan-out of a frame. A packet loss ratio is a double, of which the code asks only whether it is
-- positive and whether a random draw lies below it.
pub mod Clients
pub mod Ring
pub mod Frames
pub mod Stream
use hermes_flow_server.Common.{
  ℕ, zero, suc, ◌+◌, ◌/◌, ◌%◌, ◌^◌, Bool, true, false, ◌&&◌, List, [], ◌∷◌, ◌++◌, Option, none,
  some, length, get_or, set, take, drop, replicate, ◌==◌, if◌then◌else◌, bit_xor,
}
use hermes_flow_server.Crypto.{encrypt}
use hermes_flow_server.Rtp.Packetizer.{RtpPacketizer, Encryption}
use hermes_flow_server.Rtp.PacketUtils.{packet_to_rtp, rtp_header_size}

-- `udp::endpoint`: an address and a port.
pub record Endpoint : Type 0 where
  pub address : ℕ
  pub port : ℕ

abbrev pub same : Endpoint → Endpoint → Bool
same a b = a.address == b.address && a.port == b.port

pub record RtpClientTarget (Ratio : Type 0) : Type 0 where
  pub endpoint : Endpoint
  pub packet_loss_ratio : Ratio

abbrev pub ring_buffer_size : ℕ
ring_buffer_size = 16

-- `config::FRAME_SIZE_BYTES`
abbrev pub frame_size_bytes : ℕ
frame_size_bytes = 320

pub record RtpStreamer (Ratio : Type 0) : Type 0 where
  pub bytes_sent : ℕ
  pub packets_sent : ℕ
  pub packet_ring : List (List ℕ)
  pub ring_index : ℕ
  pub packetizer : RtpPacketizer
  pub encryptor : Option Encryption
  pub clients : List (RtpClientTarget Ratio)

-- A datagram handed to `async_send_to`: the packet is in the ring's slot, not copied.
pub record Send : Type 0 where
  pub to : Endpoint
  pub slot : ℕ
  pub size : ℕ

-- The constructor, for a packetizer that starts at random values.
unfoldable pub create : (Ratio : Type 0) → RtpPacketizer → RtpStreamer Ratio
create Ratio packetizer = record {
  bytes_sent = 0;
  packets_sent = 0;
  packet_ring = replicate ring_buffer_size (replicate (rtp_header_size + frame_size_bytes) 0);
  ring_index = 0;
  packetizer = packetizer;
  encryptor = none;
  clients = [];
}

module _ {Ratio : Type 0} where
  abbrev pub has_endpoint : Endpoint → List (RtpClientTarget Ratio) → Bool
  has_endpoint ep [] = false
  has_endpoint ep (c ∷ cs) = if same c.endpoint ep then true else has_endpoint ep cs

  -- `std::erase(clients_, ep)`
  abbrev pub erase : Endpoint → List (RtpClientTarget Ratio) → List (RtpClientTarget Ratio)
  erase ep [] = []
  erase ep (c ∷ cs) = if same c.endpoint ep then erase ep cs else c ∷ erase ep cs

  -- The endpoint is `none` where neither an address nor a host name could be made of the text.
  unfoldable pub add_client : RtpStreamer Ratio → Option Endpoint → Ratio → RtpStreamer Ratio
  add_client s none ratio = s
  add_client s (some ep) ratio = if has_endpoint ep s.clients then s else record s {
    clients = s.clients ++ record { endpoint = ep; packet_loss_ratio = ratio } ∷ [];
  }

  unfoldable pub remove_client : RtpStreamer Ratio → Option Endpoint → RtpStreamer Ratio
  remove_client s none = s
  remove_client s (some ep) = record s { clients = erase ep s.clients }

  module _ (is_positive : Ratio → Bool) (below : ℕ → Ratio → Bool) where
    -- The loop over the clients. `below n` is the test of the n-th random draw; a client with no
    -- loss takes no draw.
    unfoldable pub fan_out : ℕ → ℕ → ℕ → List (RtpClientTarget Ratio) → List Send
    fan_out slot size n [] = []
    fan_out slot size n (c ∷ cs) =
        let sent : Send = record { to = c.endpoint; slot = slot; size = size } in
        let drawn = fan_out slot size (suc n) cs in
        let kept = fan_out slot size n cs in
        if is_positive c.packet_loss_ratio
        then (if below n c.packet_loss_ratio then drawn else sent ∷ drawn)
        else sent ∷ kept

    -- What follows the early return for a streamer with no clients, for a frame's packet.
    unfoldable pub dispatch :
        RtpStreamer Ratio
        → List (RtpClientTarget Ratio)
        → ℕ × List ℕ × RtpPacketizer
        → List Send × RtpStreamer Ratio
    dispatch s [] r = ([], s)
    dispatch s (c ∷ cs) (size, packet, packetizer) = (
      (if size == 0 then [] else fan_out s.ring_index size 0 (c ∷ cs)),
      record s {
        packet_ring = set s.packet_ring s.ring_index packet;
        ring_index = (s.ring_index + 1) % ring_buffer_size;
        packetizer = packetizer;
      },
    )

    -- `table` is the table of `encode_alaw`. With no clients the frame's packet is not made: what
    -- `dispatch` is handed is not read then.
    unfoldable pub send_frame : List ℕ → RtpStreamer Ratio → List ℕ → List Send × RtpStreamer Ratio
    send_frame table s pcm_frame = dispatch s s.clients (
        packet_to_rtp table s.encryptor s.packetizer pcm_frame
          (get_or s.packet_ring s.ring_index []))

  -- The completion handler of a send, without an error.
  unfoldable pub on_sent : RtpStreamer Ratio → ℕ → RtpStreamer Ratio
  on_sent s bytes_transferred = record s {
    bytes_sent = (s.bytes_sent + bytes_transferred) % 2 ^ 64;
    packets_sent = (s.packets_sent + 1) % 2 ^ 64;
  }

-- `derive_iv_from_ssrc`: the salt with the SSRC in its first four bytes, highest first.
unfoldable pub derive_iv_from_ssrc : List ℕ → ℕ → List ℕ
derive_iv_from_ssrc salt ssrc =
    let iv0 = set salt 0 (bit_xor (get_or salt 0 0) (ssrc / 2 ^ 24 % 256)) in
    let iv1 = set iv0 1 (bit_xor (get_or iv0 1 0) (ssrc / 2 ^ 16 % 256)) in
    let iv2 = set iv1 2 (bit_xor (get_or iv1 2 0) (ssrc / 2 ^ 8 % 256)) in
    set iv2 3 (bit_xor (get_or iv2 3 0) (ssrc % 256))

-- `setup_security`: the salt gives the base vector; `derive` is the key derivation of Crypto++, and
-- `process` its cipher under a key. The constructor of the strategy throws unless both have 16 bytes;
-- a salt of fewer than 4 bytes is read outside its bounds before that.
unfoldable pub setup_security :
    {Ratio : Type 0}
    → (ℕ → List ℕ)
    → (List ℕ → List ℕ → List ℕ → List ℕ)
    → List ℕ
    → RtpStreamer Ratio
    → Option (RtpStreamer Ratio)
setup_security derive process salt s =
    let key = derive s.packetizer.ssrc in
    let iv = derive_iv_from_ssrc salt s.packetizer.ssrc in
    if length key == 16 && length iv == 16
    then some (record s {
      encryptor = some (λ payload index. (encrypt (process key) iv payload index).1);
    })
    else none
