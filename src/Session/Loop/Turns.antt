-- ===== src/Session/Loop/Turns.antt =====
-- src/core/session/Session.cpp, `process_and_stream_single_frame`: a tick that goes on, and one that ends
-- the session.
use hermes_flow_server.Common.{
  ℕ, ◌+◌, ◌≡◌, refl, ◌∙◌, ap, ap₂, sym, Bool, true, false, List, [], ◌∷◌, ◌++◌, map, arith,
  if◌then◌else◌,
}
use mathlib.Core.Bool.{false≢true}
use hermes_flow_server.Types.{NodeErrorCode}
use hermes_flow_server.Graph.Executor.{AudioExecutor, get_next_frame}
use hermes_flow_server.Rtp.Streamer.{send_frame}
use hermes_flow_server.Session.{
  Session, Notice, error_notice, session_complete, is_success, ended, ticking, is_ticking, tick,
  loop_head, teardown, finalize_session,
}
use hermes_flow_server.Session.Loop.{
  Playing, Happening, fired, play, play_all, on_tick, ticked, armed, streamed,
  update_stats_if_needed,
}

-- A session that waits for its tick and was not paused or stopped.
pub record IsPlaying (s : Session) : Type 0 where
  pub position : s.position ≡ ticking
  pub running : s.is_running ≡ true
  pub unpaused : s.is_paused ≡ false

-- What the observer is told at an end.
abbrev pub told : Session → NodeErrorCode → List Notice
told s status =
    if s.has_observer
    then (if is_success status then session_complete else error_notice status) ∷ s.notices
    else s.notices

pub continues-IsPlaying :
    (status : NodeErrorCode) (s : Session)
    → IsPlaying s
    → let s' = tick true status s in
      IsPlaying s'
      × (s'.frames_sent ≡ s.frames_sent + 1)
      × (s'.notices ≡ s.notices)
      × (s'.has_observer ≡ s.has_observer)
unfolding tick loop_head teardown finalize_session
continues-IsPlaying status s v = ground arith

pub stops-ended :
    (status : NodeErrorCode) (s : Session)
    → let s' = tick false status s in
      (s'.position ≡ ended status) × (s'.frames_sent ≡ s.frames_sent) × (s'.notices ≡ told s status)
unfolding tick loop_head teardown finalize_session
stops-ended status s = ground arith

pub told-same :
    (a b : Session) (status : NodeErrorCode)
    → a.notices ≡ b.notices
    → a.has_observer ≡ b.has_observer
    → told a status ≡ told b status
told-same a b status h k =
    ap₂
      (λ o n.
        if o then (if is_success status then session_complete else error_notice status) ∷ n else n)
      k h

module _ {Ratio : Type 0} where
  -- Ticks under the same files, each with its frame and its time.
  abbrev pub ticks : (ready closes : ℕ → Bool) → List (List ℕ × ℕ) → List (Happening Ratio)
  ticks ready closes = map (λ f. fired ready closes f.0 f.1)

  updated-parts :
      (now : ℕ) (p : Playing Ratio)
      → let q = update_stats_if_needed now p in
        (q.session ≡ p.session)
        × (q.executor ≡ p.executor)
        × (q.streamer ≡ p.streamer)
        × (q.datagrams ≡ p.datagrams)
  unfolding update_stats_if_needed
  updated-parts now p = ground arith

module _ {Ratio : Type 0} (no_loss : Ratio) (is_positive : Ratio → Bool) (below : ℕ → Ratio → Bool)
    (table : List ℕ) where
  streamed-parts :
      (frame : List ℕ) (now : ℕ) (p : Playing Ratio)
      → let q = streamed is_positive below table frame now p in
        let (sends, s) = send_frame is_positive below table p.streamer frame in
        (q.session ≡ p.session)
        × (q.executor ≡ p.executor)
        × (q.streamer ≡ s)
        × (q.datagrams ≡ p.datagrams ++ sends)
  unfolding streamed
  streamed-parts frame now p = updated-parts now _

  pub ticked-continues :
      (frame : List ℕ) (now : ℕ) (p : Playing Ratio) (r : Bool × NodeErrorCode × AudioExecutor)
      → r.0 ≡ true
      → let q = ticked is_positive below table frame now p r in
        let (sends, s) = send_frame is_positive below table p.streamer frame in
        (q.session ≡ tick true r.1 p.session)
        × (q.executor ≡ r.2)
        × (q.streamer ≡ s)
        × (q.datagrams ≡ p.datagrams ++ sends)
  unfolding ticked armed
  ticked-continues frame now p (true, status, x) h = streamed-parts frame now _
  ticked-continues frame now p (false, status, x) h = absurd (false≢true h)

  pub ticked-stops :
      (frame : List ℕ) (now : ℕ) (p : Playing Ratio) (r : Bool × NodeErrorCode × AudioExecutor)
      → r.0 ≡ false
      → let q = ticked is_positive below table frame now p r in
        (q.session ≡ tick false r.1 p.session) × (q.datagrams ≡ p.datagrams)
  unfolding ticked
  ticked-stops frame now p (true, status, x) h = absurd (false≢true (sym h))
  ticked-stops frame now p (false, status, x) h = (refl, refl)

  pub play-ticking :
      (ready closes : ℕ → Bool) (frame : List ℕ) (now : ℕ) (p : Playing Ratio)
      → is_ticking p.session.position ≡ true
      → play no_loss is_positive below table p (fired ready closes frame now)
        ≡ ticked is_positive below table frame now p (get_next_frame ready closes p.executor)
  unfolding play on_tick
  play-ticking ready closes frame now p h =
      ap
        (λ b.
          if b
          then ticked is_positive below table frame now p (get_next_frame ready closes p.executor)
          else p)
        h

  -- Ticks do nothing to a session that does not wait for one.
  pub play_all-over :
      (ready closes : ℕ → Bool) (es : List (List ℕ × ℕ)) (p : Playing Ratio)
      → is_ticking p.session.position ≡ false
      → play_all no_loss is_positive below table p (ticks ready closes es) ≡ p
  unfolding play_all play
  play_all-over ready closes [] p h = refl
  play_all-over ready closes (f ∷ es) p h =
      ap
        (λ b.
          play_all no_loss is_positive below table
            (if b then on_tick is_positive below table ready closes f.0 f.1 p else p)
            (ticks ready closes es))
        h
      ∙ play_all-over ready closes es p h
