-- ===== src/Session/Loop/Refines.antt =====
-- src/core/session/Session.cpp: the loop with its clocks, its executor and its streamer, against the
-- control of the coroutine alone.
use hermes_flow_server.Common.{
  ℕ, ◌≡◌, refl, Bool, true, false, List, [], ◌∷◌, ap, ◌∙◌, if◌then◌else◌, arith, Option, ltb, ◌&&◌,
}
use hermes_flow_server.Types.{NodeErrorCode}
use hermes_flow_server.Session.{
  Session, Event, step, run, start, tick, is_idle, is_receiving, is_ticking, call_stop,
  call_stop_late, call_pause, call_resume, channel_ready, wait_aborted, started, timer_fired,
}
use hermes_flow_server.Graph.Executor.{AudioExecutor, get_next_frame}
use hermes_flow_server.Rtp.Streamer.{Endpoint}
use hermes_flow_server.Session.Loop.{
  Playing, Happening, Target, stop_called, late_stop_called, pause_called, resume_called, aborted,
  begun, woken, fired, play, play_all, on_tick, ticked, on_begin, on_wake, armed, streamed,
  update_stats_if_needed,
}

module _ {Ratio : Type 0} where
  -- What the coroutine sees of it: at a tick, the executor's answer.
  abbrev seen : Playing Ratio → Happening Ratio → Event
  seen p stop_called = call_stop
  seen p late_stop_called = call_stop_late
  seen p pause_called = call_pause
  seen p resume_called = call_resume
  seen p aborted = wait_aborted
  seen p (begun prepared janus clients now) = started prepared
  seen p (woken now) = channel_ready
  seen p (fired ready closes frame now) =
      let (wants_continue, status, x) = get_next_frame ready closes p.executor in
      timer_fired wants_continue status

  pub updated-session :
      (now : ℕ) (p : Playing Ratio) → (update_stats_if_needed now p).session ≡ p.session
  unfolding update_stats_if_needed
  updated-session now p = ground arith

  on_begin-session :
      (no_loss : Ratio) (prepared : Bool) (janus : Option Endpoint)
      (clients : Option (List (Target Ratio))) (now : ℕ) (p : Playing Ratio)
      → (on_begin no_loss prepared janus clients now p).session ≡ start prepared p.session
  unfolding on_begin armed
  on_begin-session no_loss true janus clients now p = refl
  on_begin-session no_loss false janus clients now p = refl

  -- A branch that is not taken leaves the session in both.
  chosen-session :
      (b : Bool) (q p : Playing Ratio) (s : Session)
      → q.session ≡ s
      → (if b then q else p).session ≡ (if b then s else p.session)
  chosen-session true q p s h = h
  chosen-session false q p s h = refl

  on_wake-session :
      (b : Bool) (q p : Playing Ratio) (s : Session)
      → q.session ≡ (if b then s else p.session)
      → (if b then q else p).session ≡ (if b then s else p.session)
  on_wake-session true q p s h = h
  on_wake-session false q p s h = refl

module _ {Ratio : Type 0} (no_loss : Ratio) (is_positive : Ratio → Bool) (below : ℕ → Ratio → Bool)
    (table : List ℕ) where
  ticked-session :
      (frame : List ℕ) (now : ℕ) (p : Playing Ratio) (r : Bool × NodeErrorCode × AudioExecutor)
      → (ticked is_positive below table frame now p r).session ≡ tick r.0 r.1 p.session
  unfolding ticked streamed armed
  ticked-session frame now p (true, status, x) = updated-session now _
  ticked-session frame now p (false, status, x) = refl

  play-step :
      (p : Playing Ratio) (e : Happening Ratio)
      → (play no_loss is_positive below table p e).session ≡ step p.session (seen p e)
  unfolding play step on_tick on_wake armed
  play-step p stop_called = refl
  play-step p late_stop_called = refl
  play-step p pause_called = refl
  play-step p resume_called = refl
  play-step p aborted = refl
  play-step p (begun prepared janus clients now) =
      chosen-session (is_idle p.session.position) _ p _
        (on_begin-session no_loss prepared janus clients now p)
  play-step p (woken now) =
      on_wake-session (is_receiving p.session.position && ltb 0 p.session.signals) (on_wake now p) p
        _ refl
  play-step p (fired ready closes frame now) =
      chosen-session (is_ticking p.session.position) _ p _
        (ticked-session frame now p (get_next_frame ready closes p.executor))

  abbrev pub all_seen : Playing Ratio → List (Happening Ratio) → List Event
  all_seen p [] = []
  all_seen p (e ∷ es) = seen p e ∷ all_seen (play no_loss is_positive below table p e) es

  -- The loop with its clocks, its executor and its streamer takes its session through the states of
  -- the coroutine alone, under the events that the coroutine sees.
  pub play_all-run :
      (p : Playing Ratio) (es : List (Happening Ratio))
      → (play_all no_loss is_positive below table p es).session ≡ run p.session (all_seen p es)
  unfolding play_all run
  play_all-run p [] = refl
  play_all-run p (e ∷ es) =
      let p' = play no_loss is_positive below table p e in
      play_all-run p' es ∙ ap (λ s. run s (all_seen p' es)) (play-step p e)
