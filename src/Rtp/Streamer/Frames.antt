-- ===== src/Rtp/Streamer/Frames.antt =====
-- src/network/rtp/RTPStreamer.cpp, `send_frame` from the samples to the datagrams.
use hermes_flow_server.Common.{
  ℕ, ◌<◌, ◌≡◌, ◌≢◌, refl, ◌∙◌, Bool, false, List, [], ◌∷◌, map, length, get_or, take, arith, All,
}
use hermes_flow_server.Common.Store.{get_or-set_self}
use hermes_flow_server.Audio.Pcm.{as_samples}
use hermes_flow_server.Audio.Alaw.{encode_sample, make_encode_table}
use hermes_flow_server.Rtp.Packet.Parse.{done, from_buffer}
use hermes_flow_server.Rtp.Packetizer.{RtpPacketizer, update_timestamp, advance_sequence}
use hermes_flow_server.Rtp.Packetizer.Index.{InRange}
use hermes_flow_server.Rtp.Packetizer.Packets.{Formatted, packet_of}
use hermes_flow_server.Rtp.PacketUtils.{packet_to_rtp, packet_to_rtp_lem, KeepsLength}
use hermes_flow_server.Rtp.Streamer.{
  RtpClientTarget, RtpStreamer, Send, send_frame, dispatch, fan_out,
}
use hermes_flow_server.Rtp.Streamer.Ring.{IsRing}

module _ {Ratio : Type 0} (is_positive : Ratio → Bool) (below : ℕ → Ratio → Bool) where
  -- A datagram for each client.
  abbrev pub to_all : ℕ → List (RtpClientTarget Ratio) → List Send
  to_all slot = map (λ c. record { to = c.endpoint; slot = slot; size = 172 })

  -- No client has a loss ratio to simulate.
  abbrev pub IsLossless : List (RtpClientTarget Ratio) → Type 0
  IsLossless = All (λ c. is_positive c.packet_loss_ratio ≡ false)

  pub fan_out_lem :
      (slot n : ℕ) (cs : List (RtpClientTarget Ratio))
      → IsLossless cs
      → fan_out is_positive below slot 172 n cs ≡ to_all slot cs
  unfolding fan_out
  fan_out_lem slot n [] h = refl
  fan_out_lem slot n (c ∷ cs) h = rw (h.0, fan_out_lem slot n cs h.1)

  pub dispatch_lem :
      (s : RtpStreamer Ratio) (cs : List (RtpClientTarget Ratio)) (r : ℕ × List ℕ × RtpPacketizer)
      → r.0 ≡ 172
      → cs ≢ []
      → IsRing s
      → IsLossless cs
      → let (sends, s') = dispatch is_positive below s cs r in
        (sends ≡ to_all s.ring_index cs)
        × (get_or s'.packet_ring s.ring_index [] ≡ r.1)
        × (s'.packetizer ≡ r.2)
  unfolding dispatch
  dispatch_lem s [] r size ne v l = absurd (ne refl)
  dispatch_lem s (c ∷ cs) (size, packet, p) e ne v l = (
    rw e (fan_out_lem s.ring_index 0 (c ∷ cs) l),
    get_or-set_self s.packet_ring s.ring_index packet [] (omega (arith, v.slots, v.in_ring)),
    refl,
  )

  -- Where there is a client and none has a loss ratio to simulate, a frame of 320 bytes goes to every
  -- client, once and in order, as a datagram of 172 bytes in the slot at the ring's index, from which
  -- the receiver reads the A-law encoding of the frame's samples under the packetizer's next header;
  -- the packetizer then moves on. The slot has room for the frame, the encryption keeps the length,
  -- and the fields of the packetizer have their widths and its header the format of the code.
  pub send_frame_lem :
      (garbage : List ℕ) (s : RtpStreamer Ratio) (frame : List ℕ)
      → length garbage ≡ 65536
      → length frame ≡ 320
      → All (λ b. b < 256) frame
      → IsRing s
      → length (get_or s.packet_ring s.ring_index []) ≡ 332
      → KeepsLength s.encryptor
      → InRange s.packetizer
      → Formatted s.packetizer
      → s.clients ≢ []
      → IsLossless s.clients
      → let (sends, s') = send_frame is_positive below (make_encode_table garbage) s frame in
        (sends ≡ to_all s.ring_index s.clients)
        × (from_buffer (take 172 (get_or s'.packet_ring s.ring_index []))
            ≡ done (packet_of s.encryptor s.packetizer (map encode_sample (as_samples frame))))
        × (s'.packetizer ≡ update_timestamp (advance_sequence s.packetizer))
  unfolding send_frame
  send_frame_lem garbage s frame g fl fb v room k r f ne l =
      let buffer = get_or s.packet_ring s.ring_index [] in
      let (size, bytes, len, moved) =
        packet_to_rtp_lem garbage s.encryptor s.packetizer frame buffer g fb k r f (omega arith)
          (omega arith) in
      let size' : (packet_to_rtp (make_encode_table garbage) s.encryptor s.packetizer frame
            buffer).0
          ≡ 172 =
        omega (arith, size, fl) in
      let d =
        dispatch_lem s s.clients
          (packet_to_rtp (make_encode_table garbage) s.encryptor s.packetizer frame buffer) size' ne
          v l in
      (d.0, rw d.1 (rw size' at bytes), d.2 ∙ moved)
