-- ===== src/Session/Loop/Started.antt =====
-- src/core/session/Session.cpp: a session from its creation over its start to the end of its playback.
use hermes_flow_server.Common.{
  ℕ, zero, suc, ◌+◌, ◌-◌, ◌≤◌, ◌≡◌, ◌≢◌, refl, ap, sym, ◌∙◌, subst, Bool, true, false, Option, none,
  some, List, [], ◌∷◌, ◌++◌, map, length, take, replicate, arith, All, All-append, if◌then◌else◌,
  if-holds, length-replicate,
}
use hermes_flow_server.Types.{success}
use hermes_flow_server.Audio.Alaw.{make_encode_table}
use hermes_flow_server.Graph.Executor.Chain.{Place, Follows, AreDistinct, total_of}
use hermes_flow_server.Rtp.Packetizer.{RtpPacketizer}
use hermes_flow_server.Rtp.Packetizer.Index.{InRange}
use hermes_flow_server.Rtp.Packetizer.Packets.{Formatted}
use hermes_flow_server.Rtp.PacketUtils.{KeepsLength}
use hermes_flow_server.Rtp.Streamer.{
  Endpoint, RtpStreamer, RtpClientTarget, create, add_client, has_endpoint,
}
use hermes_flow_server.Rtp.Streamer.Ring.{IsRing}
use hermes_flow_server.Rtp.Streamer.Frames.{IsLossless}
use hermes_flow_server.Rtp.Streamer.Stream.{IsReady, IsFrame, to_each}
use hermes_flow_server.Session.{
  Session, created, ended, start, loop_head, teardown, finalize_session, is_idle,
}
use hermes_flow_server.Session.Loop.{
  Playing, Target, begun, play, play_all, on_begin, armed, add_all, targets_of,
  configure_streamer_from_graph,
}
use hermes_flow_server.Session.Loop.Turns.{IsPlaying, told, ticks}
use hermes_flow_server.Session.Loop.Playback.{playback_lem}

All-replicate : {A : Type 0} (P : A → Type 0) (n : ℕ) (a : A) → P a → All P (replicate n a)
All-replicate P zero a h = tt
All-replicate P (suc n) a h = (h, All-replicate P n a h)

start-IsPlaying :
    (s : Session)
    → s.position ≡ created
    → s.is_paused ≡ false
    → IsPlaying (start true s) × ((start true s).frames_sent ≡ s.frames_sent)
unfolding start loop_head teardown finalize_session
start-IsPlaying s c u = ground arith

append_ne : {A : Type 0} (xs : List A) (a : A) → xs ++ a ∷ [] ≢ []
append_ne [] a e = omega (arith, ap length e)
append_ne (x ∷ xs) a e = omega (arith, ap length e)

module _ {Ratio : Type 0} (is_positive : Ratio → Bool) (below : ℕ → Ratio → Bool) where
  -- A streamer that can take a frame once it has clients.
  pub record IsSound (s : RtpStreamer Ratio) : Type 0 where
    pub ring : IsRing s
    pub rooms : All (λ slot. length slot ≡ 332) s.packet_ring
    pub cipher : KeepsLength s.encryptor
    pub numbers : InRange s.packetizer
    pub formatted : Formatted s.packetizer
    pub lossless : IsLossless is_positive below s.clients

  pub create-IsSound :
      (packetizer : RtpPacketizer)
      → InRange packetizer
      → Formatted packetizer
      → IsSound (create Ratio packetizer)
  unfolding create
  create-IsSound packetizer r f = record {
    ring = record { slots = refl; in_ring = omega arith };
    rooms =
        All-replicate (λ slot. length slot ≡ 332) 16 (replicate {A = ℕ} 332 0)
          (length-replicate {A = ℕ} 332 0);
    cipher = λ payload index. refl;
    numbers = r;
    formatted = f;
    lossless = tt;
  }

  -- No client of the list has a loss to simulate.
  abbrev pub AreLossless : List (Target Ratio) → Type 0
  AreLossless = All (λ t. is_positive t.1 ≡ false)

  add_client-IsSound :
      (s : RtpStreamer Ratio) (ep : Option Endpoint) (ratio : Ratio)
      → is_positive ratio ≡ false
      → IsSound s
      → IsSound (add_client s ep ratio)
  unfolding add_client
  add_client-IsSound s none ratio l v = v
  add_client-IsSound s (some ep) ratio l v =
      if-holds IsSound (has_endpoint ep s.clients) s _ (λ _. v)
        (λ _. record {
          ring = record { slots = v.ring.slots; in_ring = v.ring.in_ring };
          rooms = v.rooms;
          cipher = v.cipher;
          numbers = v.numbers;
          formatted = v.formatted;
          lossless =
              All-append (λ c. is_positive c.packet_loss_ratio ≡ false) s.clients _ v.lossless
                (l, tt);
        })

  add_all-IsSound :
      (targets : List (Target Ratio)) (s : RtpStreamer Ratio)
      → AreLossless targets
      → IsSound s
      → IsSound (add_all targets s)
  unfolding add_all
  add_all-IsSound [] s l v = v
  add_all-IsSound ((ep, ratio) ∷ targets) s l v =
      add_all-IsSound targets (add_client s ep ratio) l.1 (add_client-IsSound s ep ratio l.0 v)

  abbrev is_some : Option Endpoint → Bool
  is_some none = false
  is_some (some ep) = true

  -- The address of a client at least could be resolved.
  abbrev pub resolves : List (Target Ratio) → Bool
  resolves [] = false
  resolves ((ep, ratio) ∷ targets) = if is_some ep then true else resolves targets

  add_client-keeps :
      (s : RtpStreamer Ratio) (ep : Option Endpoint) (ratio : Ratio)
      → s.clients ≢ []
      → (add_client s ep ratio).clients ≢ []
  unfolding add_client
  add_client-keeps s none ratio h = h
  add_client-keeps s (some ep) ratio h =
      if-holds (λ s. s.clients ≢ []) (has_endpoint ep s.clients) s _ (λ _. h)
        (λ _. append_ne s.clients _)

  has_endpoint-ne :
      (ep : Endpoint) (cs : List (RtpClientTarget Ratio)) → has_endpoint ep cs ≡ true → cs ≢ []
  has_endpoint-ne ep [] h e = cc
  has_endpoint-ne ep (c ∷ cs) h e = omega (arith, ap length e)

  add_client-some :
      (s : RtpStreamer Ratio) (ep : Endpoint) (ratio : Ratio)
      → (add_client s (some ep) ratio).clients ≢ []
  unfolding add_client
  add_client-some s ep ratio =
      if-holds (λ s. s.clients ≢ []) (has_endpoint ep s.clients) s _
        (λ e. has_endpoint-ne ep s.clients e) (λ _. append_ne s.clients _)

  add_all-keeps :
      (targets : List (Target Ratio)) (s : RtpStreamer Ratio)
      → s.clients ≢ []
      → (add_all targets s).clients ≢ []
  unfolding add_all
  add_all-keeps [] s h = h
  add_all-keeps ((ep, ratio) ∷ targets) s h =
      add_all-keeps targets (add_client s ep ratio) (add_client-keeps s ep ratio h)

  add_all-clients :
      (targets : List (Target Ratio)) (s : RtpStreamer Ratio)
      → resolves targets ≡ true
      → (add_all targets s).clients ≢ []
  unfolding add_all
  add_all-clients [] s h = absurd cc
  add_all-clients ((none, ratio) ∷ targets) s h =
      add_all-clients targets (add_client s none ratio) h
  add_all-clients ((some ep, ratio) ∷ targets) s h =
      add_all-keeps targets (add_client s (some ep) ratio) (add_client-some s ep ratio)

  add_all-IsReady :
      (targets : List (Target Ratio)) (s : RtpStreamer Ratio)
      → AreLossless targets
      → resolves targets ≡ true
      → IsSound s
      → IsReady is_positive below (add_all targets s)
  add_all-IsReady targets s l r v =
      let w = add_all-IsSound targets s l v in
      record {
        ring = w.ring;
        rooms = w.rooms;
        cipher = w.cipher;
        numbers = w.numbers;
        formatted = w.formatted;
        has_clients = add_all-clients targets s r;
        lossless = w.lossless;
      }

  -- A session from its start to its end: it has not begun and is not paused, its graph is prepared
  -- and is a chain of delays, each with a positive total and none twice; of its clients, or its Janus
  -- port, one at least has an address that could be resolved, none has a packet loss to simulate, and
  -- its streamer is sound. Then after its start and at least as many ticks as the totals add up to it
  -- has ended with success, the observer, if any, was told so, each frame but the last was sent, and
  -- for each frame sent there is a datagram for each client that was registered, in the order of the
  -- frames and of the clients, in slots that go round the ring. The frames have 320 bytes.
  pub started_lem :
      (no_loss : Ratio) (garbage : List ℕ) (ready closes : ℕ → Bool) (janus : Option Endpoint)
      (clients : Option (List (Target Ratio))) (now : ℕ) (es : List (List ℕ × ℕ))
      (p : Playing Ratio) (q : Place) (path : List Place)
      → length garbage ≡ 65536
      → All IsFrame (map (λ f. f.0) es)
      → p.session.position ≡ created
      → p.session.is_paused ≡ false
      → IsSound p.streamer
      → AreLossless (targets_of no_loss p.session.is_webrtc p.session.janus_port janus clients)
      → resolves (targets_of no_loss p.session.is_webrtc p.session.janus_port janus clients) ≡ true
      → Follows p.executor.nodes p.executor.current_node (q ∷ path)
      → AreDistinct (q ∷ path)
      → total_of (q ∷ path) ≤ length es
      → let n = total_of (q ∷ path) - 1 in
        let streamer = configure_streamer_from_graph no_loss janus clients p.session p.streamer in
        let over =
          play_all no_loss is_positive below
            (make_encode_table garbage)
            p
            (begun true janus clients now ∷ ticks ready closes es) in
        (over.session.position ≡ ended success)
        × (over.session.frames_sent ≡ p.session.frames_sent + n)
        × (over.session.notices ≡ told (start true p.session) success)
        × (over.datagrams
            ≡ p.datagrams
              ++ to_each is_positive below streamer.ring_index streamer.clients
                  (take n (map (λ f. f.0) es)))
  unfolding play_all play on_begin armed configure_streamer_from_graph
  started_lem no_loss garbage ready closes janus clients now es p q path g fs c u v l r f d t =
      let (playing, same) = start-IsPlaying p.session c u in
      let begin = on_begin no_loss true janus clients now p in
      let targets = targets_of no_loss p.session.is_webrtc p.session.janus_port janus clients in
      let over =
        playback_lem no_loss is_positive below garbage ready closes es begin q path g fs playing
          (add_all-IsReady targets p.streamer l r v) f d t in
      let n = total_of (q ∷ path) - 1 in
      let end = λ (z : Playing Ratio).
        play_all no_loss is_positive below (make_encode_table garbage) z (ticks ready closes es) in
      let begins : (if is_idle p.session.position then begin else p) ≡ begin =
        ap (λ at. if is_idle at then begin else p) c in
      subst
        (λ z.
          ((end z).session.position ≡ ended success)
          × ((end z).session.frames_sent ≡ p.session.frames_sent + n)
          × ((end z).session.notices ≡ told (start true p.session) success)
          × ((end z).datagrams
              ≡ p.datagrams
                ++ to_each is_positive below begin.streamer.ring_index begin.streamer.clients
                    (take n (map (λ f. f.0) es))))
        (sym begins) (over.0, over.1 ∙ ap (λ k. k + n) same, over.2, over.3)
