-- ===== src/Session/Loop/Playback.antt =====
-- src/core/session/Session.cpp with the executor and the streamer: a session's playback from a tick to
-- its end.
use hermes_flow_server.Common.{
  ℕ, zero, suc, ◌+◌, ◌-◌, ◌<◌, ◌≤◌, ◌≡◌, ◌∙◌, ap, ap₂, sym, subst, Bool, true, false, Option, none,
  some, List, [], ◌∷◌, ◌++◌, map, length, take, arith, All, append_assoc, append-nil, All-take,
  Bool-cases, inl, inr,
}
use mathlib.Core.Option
use mathlib.Core.Option.{none-ne-some}
use hermes_flow_server.Types.{NodeErrorCode, success}
use hermes_flow_server.Audio.Alaw.{make_encode_table}
use hermes_flow_server.Graph.Executor.{AudioExecutor, get_next_frame}
use hermes_flow_server.Graph.Executor.Chain.{
  until_stop, continues, stops, one_more, Place, Follows, AreDistinct, total_of, chain_frames_lem,
}
use hermes_flow_server.Rtp.Streamer.{send_frame}
use hermes_flow_server.Rtp.Streamer.Stream.{stream, stream_lem, IsReady, IsFrame, to_each}
use hermes_flow_server.Session.{ended, is_ticking, tick}
use hermes_flow_server.Session.Loop.{Playing, play_all, ticked}
use hermes_flow_server.Session.Loop.Turns.{
  IsPlaying, told, told-same, continues-IsPlaying, stops-ended, ticks, ticked-continues,
  ticked-stops, play-ticking, play_all-over,
}

some-pair :
    {a b : ℕ} {s t : NodeErrorCode}
    → ◌≡◌ {A = Option (ℕ × NodeErrorCode)} (some (a, s)) (some (b, t))
    → (a ≡ b) × (s ≡ t)
some-pair h = (cc, cc)

one_more-some :
    (n : ℕ) (status : NodeErrorCode) (o : Option (ℕ × NodeErrorCode))
    → Option.map one_more o ≡ some (n, status)
    → (m : ℕ) × (o ≡ some (m, status)) × (n ≡ suc m)
one_more-some n status none h = absurd (none-ne-some _ h)
one_more-some n status (some (m, st)) h =
    let (a, b) = some-pair h in (m, ap (λ st. some (m, st)) b, sym a)

module _ {Ratio : Type 0} (no_loss : Ratio) (is_positive : Ratio → Bool) (below : ℕ → Ratio → Bool)
    (table : List ℕ) where
  -- What a session of which `n` frames are left becomes.
  record IsOver (n : ℕ) (status : NodeErrorCode) (frames : List (List ℕ)) (p q : Playing Ratio)
      : Type 0 where
    pub position : q.session.position ≡ ended status
    pub sent : q.session.frames_sent ≡ p.session.frames_sent + n
    pub notices : q.session.notices ≡ told p.session status
    pub datagrams :
        q.datagrams ≡ p.datagrams ++ (stream is_positive below table p.streamer (take n frames)).0

  IsOver-continues :
      (f : List ℕ × ℕ) (es : List (List ℕ × ℕ)) (p q : Playing Ratio) (m : ℕ)
      (status : NodeErrorCode) (z : Playing Ratio) (st : NodeErrorCode) (x : AudioExecutor)
      → IsPlaying p.session
      → let (sends, s) = send_frame is_positive below table p.streamer f.0 in
        (q.session ≡ tick true st p.session)
          × (q.executor ≡ x)
          × (q.streamer ≡ s)
          × (q.datagrams ≡ p.datagrams ++ sends)
        → IsOver m status (map (λ f. f.0) es) q z
        → IsOver (suc m) status (f.0 ∷ map (λ f. f.0) es) p z
  unfolding stream
  IsOver-continues f es p q m status z st x v (ss, xx, ts, ds) h =
      let (v', fr, said, ob) = continues-IsPlaying st p.session v in
      let fs = take m (map (λ f. f.0) es) in
      let sends = (send_frame is_positive below table p.streamer f.0).0 in
      record {
        position = h.position;
        sent = omega (arith, h.sent, ap (λ s. s.frames_sent) ss, fr);
        notices =
            h.notices
            ∙ ap (λ s. told s status) ss
            ∙ told-same (tick true st p.session) p.session status said ob;
        datagrams =
            h.datagrams
            ∙ ap₂ (λ d s. d ++ (stream is_positive below table s fs).0) ds ts
            ∙ append_assoc p.datagrams sends _;
      }

  IsOver-stops :
      (frames : List (List ℕ)) (p q : Playing Ratio) (st : NodeErrorCode)
      → (q.session ≡ tick false st p.session) × (q.datagrams ≡ p.datagrams)
      → IsOver 0 st frames p q
  unfolding stream
  IsOver-stops frames p q st (ss, ds) =
      let (po, fr, said) = stops-ended st p.session in
      record {
        position = ap (λ s. s.position) ss ∙ po;
        sent = omega (arith, ap (λ s. s.frames_sent) ss, fr);
        notices = ap (λ s. s.notices) ss ∙ said;
        datagrams = ds ∙ sym (append-nil p.datagrams);
      }

  playing-IsOver :
      (ready closes : ℕ → Bool) (fuel n : ℕ) (status : NodeErrorCode) (es : List (List ℕ × ℕ))
      (p : Playing Ratio)
      → IsPlaying p.session
      → until_stop ready closes fuel p.executor ≡ some (n, status)
      → n < length es
      → IsOver n status
          (map (λ f. f.0) es)
          p
          (play_all no_loss is_positive below table p (ticks ready closes es))
  unfolding play_all until_stop
  playing-IsOver ready closes zero n status es p v e l = absurd (none-ne-some _ e)
  playing-IsOver ready closes (suc fuel) n status [] p v e l = absurd (omega arith)
  playing-IsOver ready closes (suc fuel) n status (f ∷ es) p v e l =
      let r = get_next_frame ready closes p.executor in
      let q = ticked is_positive below table f.0 f.1 p r in
      let turn =
        play-ticking no_loss is_positive below table ready closes f.0 f.1 p
          (ap is_ticking v.position) in
      elim (Bool-cases r.0) [
        | inl b ↦
            let (m, e', k) =
              one_more-some n status (until_stop ready closes fuel r.2)
                (sym (continues ready closes fuel p.executor b) ∙ e) in
            let over =
              IsOver-continues f es p q m status
                (play_all no_loss is_positive below table q (ticks ready closes es)) r.1 r.2 v
                (ticked-continues no_loss is_positive below table f.0 f.1 p r b) in
            let now = over (
              playing-IsOver ready closes fuel m status es q
                (subst IsPlaying
                  (sym (ticked-continues no_loss is_positive below table f.0 f.1 p r b).0)
                  (continues-IsPlaying r.1 p.session v).0)
                (ap (until_stop ready closes fuel)
                    (ticked-continues no_loss is_positive below table f.0 f.1 p r b).1
                  ∙ e')
                (omega (arith, k))) in
            subst
              (λ z.
                IsOver n status (map (λ f. f.0) (f ∷ es)) p
                  (play_all no_loss is_positive below table z (ticks ready closes es)))
              (sym turn)
              (subst
                (λ n.
                  IsOver n status (map (λ f. f.0) (f ∷ es)) p
                    (play_all no_loss is_positive below table q (ticks ready closes es)))
                (sym k) now)
        | inr b ↦
            let (n0, st) = some-pair (sym (stops ready closes fuel p.executor b) ∙ e) in
            let over =
              IsOver-stops (map (λ f. f.0) (f ∷ es)) p q r.1
                (ticked-stops no_loss is_positive below table f.0 f.1 p r b) in
            subst
              (λ z.
                IsOver n status (map (λ f. f.0) (f ∷ es)) p
                  (play_all no_loss is_positive below table z (ticks ready closes es)))
              (sym turn)
              (subst (IsOver n status (map (λ f. f.0) (f ∷ es)) p)
                (sym (
                  play_all-over no_loss is_positive below table ready closes es q
                    (ap is_ticking over.position)))
                (subst (λ n. IsOver n status (map (λ f. f.0) (f ∷ es)) p q) n0
                  (subst (λ st. IsOver 0 st (map (λ f. f.0) (f ∷ es)) p q) st over)))
      ]

module _ {Ratio : Type 0} (no_loss : Ratio) (is_positive : Ratio → Bool)
    (below : ℕ → Ratio → Bool) where
  -- A session that plays a chain of delays, as it stands after its start, ends by itself: if the delays
  -- have not begun, have positive totals and none comes twice, then after at least as many ticks as
  -- the totals add up to it has ended with success, the observer, if any, was told so, each frame but
  -- the last was sent, and for each frame sent there is a datagram for each client, in the order of
  -- the frames and of the clients, in slots that go round the ring. The frames have 320 bytes; the
  -- streamer is sound and has clients, none of which has a packet loss to simulate.
  pub playback_lem :
      (garbage : List ℕ) (ready closes : ℕ → Bool) (es : List (List ℕ × ℕ)) (p : Playing Ratio)
      (q : Place) (path : List Place)
      → length garbage ≡ 65536
      → All IsFrame (map (λ f. f.0) es)
      → IsPlaying p.session
      → IsReady is_positive below p.streamer
      → Follows p.executor.nodes p.executor.current_node (q ∷ path)
      → AreDistinct (q ∷ path)
      → total_of (q ∷ path) ≤ length es
      → let n = total_of (q ∷ path) - 1 in
        let table = make_encode_table garbage in
        let over = play_all no_loss is_positive below table p (ticks ready closes es) in
        (over.session.position ≡ ended success)
        × (over.session.frames_sent ≡ p.session.frames_sent + n)
        × (over.session.notices ≡ told p.session success)
        × (over.datagrams
            ≡ p.datagrams
              ++ to_each is_positive below p.streamer.ring_index p.streamer.clients
                  (take n (map (λ f. f.0) es)))
  playback_lem garbage ready closes es p q path g fs v r f d l =
      let n = total_of (q ∷ path) - 1 in
      let over =
        playing-IsOver no_loss is_positive below (make_encode_table garbage) ready closes
          (total_of (q ∷ path)) n success es p v
          (chain_frames_lem ready closes (total_of (q ∷ path)) p.executor q path f d (omega arith))
          (omega (arith, l, f.1.positive)) in
      (
        over.position,
        over.sent,
        over.notices,
        over.datagrams
            ∙ ap (◌++◌ p.datagrams) (
                stream_lem is_positive below garbage p.streamer (take n (map (λ f. f.0) es)) g
                  (All-take IsFrame n (map (λ f. f.0) es) fs) r),
      )
