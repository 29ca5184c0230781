-- ===== src/Rtp/Streamer/Ring.antt =====
-- src/network/rtp/RTPStreamer.cpp, `send_frame`: which slot a frame takes, and how long it stays.
use hermes_flow_server.Common.{
  ℕ, ◌+◌, ◌%◌, ◌<◌, ◌≤◌, ◌≡◌, ◌≢◌, refl, ◌∙◌, Bool, List, [], ◌∷◌, ◌⊎◌, inl, inr, ◌-◌, length,
  get_or, length-set, arith,
}
use hermes_flow_server.Common.Store.{get_or-set_ne}
use hermes_flow_server.Rtp.Packetizer.{RtpPacketizer}
use hermes_flow_server.Rtp.PacketUtils.{packet_to_rtp}
use hermes_flow_server.Rtp.Streamer.{
  RtpClientTarget, RtpStreamer, send_frame, dispatch, ring_buffer_size,
}

pub record IsRing {Ratio : Type 0} (s : RtpStreamer Ratio) : Type 0 where
  pub slots : length s.packet_ring ≡ ring_buffer_size
  pub in_ring : s.ring_index < ring_buffer_size

module _ {Ratio : Type 0} (is_positive : Ratio → Bool) (below : ℕ → Ratio → Bool)
    (table : List ℕ) where
  abbrev pub after : RtpStreamer Ratio → List ℕ → RtpStreamer Ratio
  after s frame = (send_frame is_positive below table s frame).1

  -- The streamer after a list of frames.
  abbrev pub after_all : RtpStreamer Ratio → List (List ℕ) → RtpStreamer Ratio
  after_all s [] = s
  after_all s (frame ∷ frames) = after_all (after s frame) frames

  -- What one frame does to the ring, `behind` a slot or more.
  record Turn (s t : RtpStreamer Ratio) : Type 0 where
    ring : IsRing t
    moves : (t.ring_index ≡ s.ring_index) ⊎ (t.ring_index ≡ (s.ring_index + 1) % ring_buffer_size)
    kept :
        (slot : ℕ)
        → s.ring_index ≢ slot
        → get_or t.packet_ring slot [] ≡ get_or s.packet_ring slot []

  dispatch-Turn :
      (s : RtpStreamer Ratio) (cs : List (RtpClientTarget Ratio)) (r : ℕ × List ℕ × RtpPacketizer)
      → IsRing s
      → Turn s (dispatch is_positive below s cs r).1
  unfolding dispatch
  dispatch-Turn s [] r v = record { ring = v; moves = inl refl; kept = λ slot ne. refl }
  dispatch-Turn s (c ∷ cs) (size, packet, p) v = record {
    ring = record {
      slots = omega (arith, v.slots, length-set s.packet_ring s.ring_index packet);
      in_ring = omega arith;
    };
    moves = inr refl;
    kept = λ slot ne. get_or-set_ne s.packet_ring s.ring_index slot packet [] ne;
  }

  turn : (s : RtpStreamer Ratio) (frame : List ℕ) → IsRing s → Turn s (after s frame)
  unfolding send_frame
  turn s frame v = dispatch-Turn s s.clients _ v

  -- How many frames may still be sent before a slot is written to.
  distance : ℕ → ℕ → ℕ
  distance index slot = (slot + 16 - index) % 16

  kept_for :
      (frames : List (List ℕ)) (s : RtpStreamer Ratio) (slot : ℕ)
      → IsRing s
      → slot < 16
      → length frames ≤ distance s.ring_index slot
      → get_or (after_all s frames).packet_ring slot [] ≡ get_or s.packet_ring slot []
  unfolding distance
  kept_for [] s slot v l h = refl
  kept_for (frame ∷ frames) s slot v l h =
      let t = turn s frame v in
      kept_for frames (after s frame) slot t.ring l
        (omega (arith, t.moves, t.ring.in_ring, v.in_ring))
      ∙ t.kept slot (λ e. omega (arith, v.in_ring))

  moved :
      (s : RtpStreamer Ratio) (cs : List (RtpClientTarget Ratio)) (r : ℕ × List ℕ × RtpPacketizer)
      → cs ≢ []
      → (dispatch is_positive below s cs r).1.ring_index ≡ (s.ring_index + 1) % 16
  unfolding dispatch
  moved s [] r ne = absurd (ne refl)
  moved s (c ∷ cs) r ne = refl

  -- The packet of a frame that went to clients stays in its slot while up to 15 more frames are
  -- sent, so that a send that is still pending reads what it was handed.
  pub slot_kept :
      (s : RtpStreamer Ratio) (frame : List ℕ) (frames : List (List ℕ))
      → IsRing s
      → s.clients ≢ []
      → length frames ≤ 15
      → get_or (after_all (after s frame) frames).packet_ring s.ring_index []
        ≡ get_or (after s frame).packet_ring s.ring_index []
  unfolding distance send_frame
  slot_kept s frame frames v ne h =
      let t = turn s frame v in
      let m : (after s frame).ring_index ≡ (s.ring_index + 1) % 16 =
        moved s s.clients
          (packet_to_rtp table s.encryptor s.packetizer frame
            (get_or s.packet_ring s.ring_index []))
          ne in
      kept_for frames (after s frame) s.ring_index t.ring v.in_ring (omega (arith, v.in_ring))
