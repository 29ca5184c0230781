-- ===== src/Session/Loop/Pace.antt =====
-- src/core/session/Session.cpp: how fast the loop sends frames, by its clock.
use hermes_flow_server.Common.{
  if-holds, ℕ, ◌+◌, ◌*◌, ◌≤◌, ◌≡◌, Bool, true, false, List, [], ◌∷◌, ap, ◌∙◌, if◌then◌else◌, arith,
  Option,
}
use hermes_flow_server.Types.{NodeErrorCode}
use hermes_flow_server.Session.{stop_late, stop, pause, resume, tick, is_idle, is_ticking}
use hermes_flow_server.Graph.Executor.{AudioExecutor, get_next_frame}
use hermes_flow_server.Rtp.Streamer.{Endpoint}
use hermes_flow_server.Session.Loop.{
  Playing, Happening, Target, stop_called, late_stop_called, pause_called, resume_called, aborted,
  begun, woken, fired, play, play_all, on_tick, on_begin, on_wake, ticked, armed, streamed,
  audio_tick_interval,
}
use hermes_flow_server.Session.Loop.Effects.{
  start-frames, start-failed, tick-frames, tick-stops, wake-frames, abort-frames, streamed-lem,
}

plus_zero : (n : ℕ) → n + 0 ≡ n
plus_zero n = omega arith

module _ {Ratio : Type 0} where
  -- The time of what happens; a call from outside has none of its own.
  abbrev pub time_of : ℕ → Happening Ratio → ℕ
  time_of now (begun prepared janus clients t) = t
  time_of now (woken t) = t
  time_of now (fired ready closes frame t) = t
  time_of now _ = now

  abbrev pub last_time : ℕ → List (Happening Ratio) → ℕ
  last_time now [] = now
  last_time now (e ∷ es) = last_time (time_of now e) es

  -- The timer does not fire before the time it is set to.
  abbrev IsDue : Playing Ratio → Happening Ratio → Type 0
  IsDue p (fired ready closes frame t) = p.next_tick ≤ t
  IsDue p _ = Unit

  -- The time that the coroutine waits for, and the frames that it may have sent then.
  abbrev horizon : ℕ → Playing Ratio → ℕ
  horizon now p = if is_ticking p.session.position then p.next_tick else now

  abbrev due : Playing Ratio → ℕ
  due p = p.session.frames_sent + (if is_ticking p.session.position then 1 else 0)

  -- The frames that were sent took a tick each since `origin`, and so does the one that is waited for.
  record IsPaced (origin now : ℕ) (p : Playing Ratio) : Type 0 where
    pub sent : origin + audio_tick_interval * p.session.frames_sent ≤ now
    pub waited : origin + audio_tick_interval * due p ≤ horizon now p

  armed-IsPaced :
      (origin now : ℕ) (p : Playing Ratio)
      → origin + audio_tick_interval * p.session.frames_sent ≤ now
      → origin + audio_tick_interval * p.session.frames_sent ≤ p.next_tick
      → IsPaced origin now (armed p)
  unfolding armed
  armed-IsPaced origin now p h k = ground arith

  -- A session that is not ticking, with no frame more.
  idle-IsPaced :
      (origin now t : ℕ) (p q : Playing Ratio)
      → IsPaced origin now p
      → now ≤ t
      → q.session.frames_sent ≡ p.session.frames_sent
      → is_ticking q.session.position ≡ false
      → IsPaced origin t q
  idle-IsPaced origin now t p q v l e n = ground (arith, v.sent)

  begun-IsPaced :
      (origin now t : ℕ) (no_loss : Ratio) (prepared : Bool) (janus : Option Endpoint)
      (clients : Option (List (Target Ratio))) (p : Playing Ratio)
      → IsPaced origin now p
      → now ≤ t
      → IsPaced origin t (on_begin no_loss prepared janus clients t p)
  unfolding on_begin
  begun-IsPaced origin now t no_loss true janus clients p v l =
      armed-IsPaced origin t _ (omega (arith, v.sent, start-frames true p.session))
        (omega (arith, v.sent, start-frames true p.session))
  begun-IsPaced origin now t no_loss false janus clients p v l =
      idle-IsPaced origin now t p _ v l (start-frames false p.session) (start-failed p.session)

  woken-IsPaced :
      (origin now t : ℕ) (p : Playing Ratio)
      → IsPaced origin now p
      → now ≤ t
      → IsPaced origin t (on_wake t p)
  unfolding on_wake
  woken-IsPaced origin now t p v l =
      armed-IsPaced origin t _ (omega (arith, v.sent, wake-frames p.session))
        (omega (arith, v.sent, wake-frames p.session))

  -- Nothing happened by a later time.
  later-IsPaced :
      (origin now t : ℕ) (p : Playing Ratio) → IsPaced origin now p → now ≤ t → IsPaced origin t p
  later-IsPaced origin now t p v l = ground (arith, v.sent, v.waited)

  waited-tick :
      (origin now : ℕ) (p : Playing Ratio)
      → IsPaced origin now p
      → is_ticking p.session.position ≡ true
      → origin + audio_tick_interval * (p.session.frames_sent + 1) ≤ p.next_tick
  waited-tick origin now p v k = ground (arith, v.waited)

module _ {Ratio : Type 0} (is_positive : Ratio → Bool) (below : ℕ → Ratio → Bool)
    (table : List ℕ) where
  ticked-IsPaced :
      (origin now t : ℕ) (frame : List ℕ) (p : Playing Ratio)
      (r : Bool × NodeErrorCode × AudioExecutor)
      → IsPaced origin now p
      → is_ticking p.session.position ≡ true
      → p.next_tick ≤ t
      → now ≤ t
      → IsPaced origin t (ticked is_positive below table frame t p r)
  unfolding ticked
  ticked-IsPaced origin now t frame p (true, status, x) v k l m =
      let p' : Playing Ratio = record p { executor = x; session = tick true status p.session } in
      let (same, clock) = streamed-lem is_positive below table frame t p' in
      let frames : (streamed is_positive below table frame t p').session.frames_sent
          ≡ p.session.frames_sent + 1 =
        ap (λ s. s.frames_sent) same ∙ tick-frames true status p.session in
      let waited = waited-tick origin now p v k in
      armed-IsPaced origin t (streamed is_positive below table frame t p')
        (rw (frames) (omega (arith, waited))) (rw (frames) (omega (arith, clock, waited)))
  ticked-IsPaced origin now t frame p (false, status, x) v k l m =
      idle-IsPaced origin now t p _ v m
        (tick-frames false status p.session ∙ plus_zero p.session.frames_sent)
        (tick-stops status p.session)

module _ {Ratio : Type 0} (no_loss : Ratio) (is_positive : Ratio → Bool) (below : ℕ → Ratio → Bool)
    (table : List ℕ) where
  -- Each happening is no earlier than the one before it, and no tick is before its time.
  abbrev pub AreTimed : ℕ → Playing Ratio → List (Happening Ratio) → Type 0
  AreTimed now p [] = Unit
  AreTimed now p (e ∷ es) =
      (now ≤ time_of now e)
      × IsDue p e
      × AreTimed (time_of now e) (play no_loss is_positive below table p e) es

  play-IsPaced :
      (origin now : ℕ) (p : Playing Ratio) (e : Happening Ratio)
      → IsPaced origin now p
      → now ≤ time_of now e
      → IsDue p e
      → IsPaced origin (time_of now e) (play no_loss is_positive below table p e)
  unfolding play on_tick stop stop_late pause resume
  play-IsPaced origin now p stop_called v l d = ground (arith, v.sent, v.waited)
  play-IsPaced origin now p late_stop_called v l d = ground (arith, v.sent, v.waited)
  play-IsPaced origin now p pause_called v l d = ground (arith, v.sent, v.waited)
  play-IsPaced origin now p resume_called v l d = ground (arith, v.sent, v.waited)
  play-IsPaced origin now p aborted v l d = ground (arith, v.sent, v.waited, abort-frames p.session)
  play-IsPaced origin now p (begun prepared janus clients t) v l d =
      if-holds (IsPaced origin t) (is_idle p.session.position) _ p
        (λ _. begun-IsPaced origin now t no_loss prepared janus clients p v l)
        (λ _. later-IsPaced origin now t p v l)
  play-IsPaced origin now p (woken t) v l d =
      if-holds (IsPaced origin t) _ (on_wake t p) p (λ _. woken-IsPaced origin now t p v l)
        (λ _. later-IsPaced origin now t p v l)
  play-IsPaced origin now p (fired ready closes frame t) v l d =
      if-holds (IsPaced origin t) (is_ticking p.session.position) _ p
        (λ k.
          ticked-IsPaced is_positive below table origin now t frame p
            (get_next_frame ready closes p.executor) v k d l)
        (λ _. later-IsPaced origin now t p v l)

  play_all-IsPaced :
      (origin now : ℕ) (p : Playing Ratio) (es : List (Happening Ratio))
      → IsPaced origin now p
      → AreTimed now p es
      → IsPaced origin (last_time now es) (play_all no_loss is_positive below table p es)
  unfolding play_all
  play_all-IsPaced origin now p [] v h = v
  play_all-IsPaced origin now p (e ∷ es) v (l, d, h) =
      play_all-IsPaced origin (time_of now e) (play no_loss is_positive below table p e) es
        (play-IsPaced origin now p e v l d) h

  -- A session never sends more than a frame for each 20 ms: at any time after `origin`, when it had
  -- sent none and was not waiting for a tick, the frames it has sent took a tick each, through pauses,
  -- late timers and what it catches up on, if the times do not go back and no timer fires early.
  pub play_all_paced :
      (origin : ℕ) (p : Playing Ratio) (es : List (Happening Ratio))
      → p.session.frames_sent ≡ 0
      → is_ticking p.session.position ≡ false
      → AreTimed origin p es
      → origin
          + audio_tick_interval
            * (play_all no_loss is_positive below table p es).session.frames_sent
        ≤ last_time origin es
  play_all_paced origin p es z n h =
      (play_all-IsPaced origin origin p es
        (record { sent = omega (arith, z); waited = ground (arith, z) }) h).sent
