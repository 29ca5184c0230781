-- ===== src/Rtp/Streamer/Stream.antt =====
-- src/network/rtp/RTPStreamer.cpp, `send_frame` called for one frame after another.
use hermes_flow_server.Common.{
  ℕ, zero, suc, ◌+◌, ◌%◌, ◌<◌, ◌≡◌, ◌≢◌, refl, ◌∙◌, ap, ap₂, sym, subst, Bool, List, [], ◌∷◌, ◌++◌,
  length, get_or, arith, All, All-set, length-set,
}
use hermes_flow_server.Audio.Alaw.{make_encode_table}
use hermes_flow_server.Rtp.Packetizer.{RtpPacketizer, update_timestamp, advance_sequence}
use hermes_flow_server.Rtp.Packetizer.Index.{InRange}
use hermes_flow_server.Rtp.Packetizer.Packets.{Formatted}
use hermes_flow_server.Rtp.PacketUtils.{packet_to_rtp, packet_to_rtp_lem, KeepsLength}
use hermes_flow_server.Rtp.Streamer.{RtpClientTarget, RtpStreamer, Send, send_frame, dispatch}
use hermes_flow_server.Rtp.Streamer.Ring.{IsRing}
use hermes_flow_server.Rtp.Streamer.Frames.{to_all, IsLossless, dispatch_lem}

get_or-All :
    (P : List ℕ → Type 0) (xs : List (List ℕ)) (i : ℕ) (d : List ℕ)
    → i < length xs
    → All P xs
    → P (get_or xs i d)
get_or-All P [] i d h v = absurd (omega arith)
get_or-All P (x ∷ xs) zero d h v = v.0
get_or-All P (x ∷ xs) (suc i) d h v = get_or-All P xs i d (omega arith) v.1

next-InRange : (p : RtpPacketizer) → InRange p → InRange (update_timestamp (advance_sequence p))
unfolding update_timestamp advance_sequence
next-InRange p v = ground arith

next-Formatted :
    (p : RtpPacketizer) → Formatted p → Formatted (update_timestamp (advance_sequence p))
unfolding update_timestamp advance_sequence
next-Formatted p v = ground arith

-- A frame of 320 bytes.
pub record IsFrame (frame : List ℕ) : Type 0 where
  pub size : length frame ≡ 320
  pub bytes : All (λ b. b < 256) frame

module _ {Ratio : Type 0} (is_positive : Ratio → Bool) (below : ℕ → Ratio → Bool) where
  -- The datagrams of a list of frames, and the streamer after them.
  unfoldable pub stream : List ℕ → RtpStreamer Ratio → List (List ℕ) → List Send × RtpStreamer Ratio
  stream table s [] = ([], s)
  stream table s (frame ∷ frames) =
      let (sends, s') = send_frame is_positive below table s frame in
      let (rest, s'') = stream table s' frames in (sends ++ rest, s'')

  -- A streamer with clients, none of which has a loss to simulate, that can take a frame.
  pub record IsReady (s : RtpStreamer Ratio) : Type 0 where
    pub ring : IsRing s
    pub rooms : All (λ slot. length slot ≡ 332) s.packet_ring
    pub cipher : KeepsLength s.encryptor
    pub numbers : InRange s.packetizer
    pub formatted : Formatted s.packetizer
    pub has_clients : s.clients ≢ []
    pub lossless : IsLossless is_positive below s.clients

  -- What a frame does to the streamer, up to the packet itself.
  record Turned (s t : RtpStreamer Ratio) : Type 0 where
    clients : t.clients ≡ s.clients
    index : t.ring_index ≡ (s.ring_index + 1) % 16
    ready : IsReady t

  dispatch-Turned :
      (s : RtpStreamer Ratio) (cs : List (RtpClientTarget Ratio)) (r : ℕ × List ℕ × RtpPacketizer)
      → IsReady s
      → cs ≢ []
      → length r.1 ≡ 332
      → r.2 ≡ update_timestamp (advance_sequence s.packetizer)
      → Turned s (dispatch is_positive below s cs r).1
  unfolding dispatch
  dispatch-Turned s [] r v ne len moved = absurd (ne refl)
  dispatch-Turned s (c ∷ cs) (size, packet, p) v ne len moved = record {
    clients = refl;
    index = refl;
    ready = record {
      ring = record {
        slots = omega (arith, v.ring.slots, length-set s.packet_ring s.ring_index packet);
        in_ring = omega arith;
      };
      rooms = All-set (λ slot. length slot ≡ 332) s.packet_ring s.ring_index packet v.rooms len;
      cipher = v.cipher;
      numbers = subst InRange (sym moved) (next-InRange s.packetizer v.numbers);
      formatted = subst Formatted (sym moved) (next-Formatted s.packetizer v.formatted);
      has_clients = v.has_clients;
      lossless = v.lossless;
    };
  }

  send_frame-Turned :
      (garbage : List ℕ) (s : RtpStreamer Ratio) (frame : List ℕ)
      → length garbage ≡ 65536
      → IsFrame frame
      → IsReady s
      → let (sends, t) = send_frame is_positive below (make_encode_table garbage) s frame in
        (sends ≡ to_all is_positive below s.ring_index s.clients) × Turned s t
  unfolding send_frame
  send_frame-Turned garbage s frame g f v =
      let slot = get_or s.packet_ring s.ring_index [] in
      let room : length slot ≡ 332 =
        get_or-All (λ slot. length slot ≡ 332) s.packet_ring s.ring_index []
          (omega (arith, v.ring.slots, v.ring.in_ring)) v.rooms in
      let (size, bytes, len, moved) =
        packet_to_rtp_lem garbage s.encryptor s.packetizer frame slot g f.bytes v.cipher v.numbers
          v.formatted (omega (arith, f.size)) (omega (arith, f.size, room)) in
      let r = packet_to_rtp (make_encode_table garbage) s.encryptor s.packetizer frame slot in
      (
        (dispatch_lem is_positive below s s.clients r (omega (arith, size, f.size)) v.has_clients
            v.ring v.lossless).0,
        dispatch-Turned s s.clients r v v.has_clients (len ∙ room) moved,
      )

  -- A datagram for each client and each frame, frame after frame, in slots that go round the ring.
  abbrev pub to_each : ℕ → List (RtpClientTarget Ratio) → List (List ℕ) → List Send
  to_each slot cs [] = []
  to_each slot cs (frame ∷ frames) =
      to_all is_positive below slot cs ++ to_each ((slot + 1) % 16) cs frames

  pub stream_lem :
      (garbage : List ℕ) (s : RtpStreamer Ratio) (frames : List (List ℕ))
      → length garbage ≡ 65536
      → All IsFrame frames
      → IsReady s
      → (stream (make_encode_table garbage) s frames).0 ≡ to_each s.ring_index s.clients frames
  unfolding stream
  stream_lem garbage s [] g h v = refl
  stream_lem garbage s (frame ∷ frames) g h v =
      let t = (send_frame is_positive below (make_encode_table garbage) s frame).1 in
      let (sends, turned) = send_frame-Turned garbage s frame g h.0 v in
      ap₂ ◌++◌ sends (
        stream_lem garbage t frames g h.1 turned.ready
        ∙ ap (λ i. to_each i t.clients frames) turned.index
        ∙ ap (λ cs. to_each ((s.ring_index + 1) % 16) cs frames) turned.clients)
