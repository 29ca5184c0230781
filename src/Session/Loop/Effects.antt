-- ===== src/Session/Loop/Effects.antt =====
-- src/core/session/Session.cpp: what a turn of the loop leaves of the frames, the position and the clock.
use hermes_flow_server.Common.{ℕ, ◌+◌, ◌≡◌, Bool, false, List, if◌then◌else◌, arith}
use hermes_flow_server.Types.{NodeErrorCode}
use hermes_flow_server.Session.{
  Session, step, start, tick, loop_head, teardown, finalize_session, is_ticking, channel_ready,
  wait_aborted,
}
use hermes_flow_server.Session.Loop.{Playing, streamed, update_stats_if_needed}
use hermes_flow_server.Session.Loop.Refines.{updated-session}

pub start-frames : (b : Bool) (s : Session) → (start b s).frames_sent ≡ s.frames_sent
unfolding start loop_head teardown finalize_session
start-frames b s = ground arith

pub start-failed : (s : Session) → is_ticking (start false s).position ≡ false
unfolding start loop_head teardown finalize_session
start-failed s = ground arith

pub tick-frames :
    (b : Bool) (status : NodeErrorCode) (s : Session)
    → (tick b status s).frames_sent ≡ s.frames_sent + (if b then 1 else 0)
unfolding tick loop_head teardown finalize_session
tick-frames b status s = ground arith

pub tick-stops :
    (status : NodeErrorCode) (s : Session) → is_ticking (tick false status s).position ≡ false
unfolding tick loop_head teardown finalize_session
tick-stops status s = ground arith

pub wake-frames : (s : Session) → (step s channel_ready).frames_sent ≡ s.frames_sent
unfolding step loop_head teardown finalize_session
wake-frames s = ground arith

pub abort-frames :
    (s : Session)
    → ((step s wait_aborted).frames_sent ≡ s.frames_sent)
      × (is_ticking (step s wait_aborted).position ≡ is_ticking s.position)
unfolding step loop_head teardown finalize_session
abort-frames s = ground arith

module _ {Ratio : Type 0} where
  updated-clock :
      (now : ℕ) (p : Playing Ratio) → (update_stats_if_needed now p).next_tick ≡ p.next_tick
  unfolding update_stats_if_needed
  updated-clock now p = ground arith

module _ {Ratio : Type 0} (is_positive : Ratio → Bool) (below : ℕ → Ratio → Bool)
    (table : List ℕ) where
  pub streamed-lem :
      (frame : List ℕ) (now : ℕ) (p : Playing Ratio)
      → let q = streamed is_positive below table frame now p in
        (q.session ≡ p.session) × (q.next_tick ≡ p.next_tick)
  unfolding streamed
  streamed-lem frame now p = (updated-session now _, updated-clock now _)
