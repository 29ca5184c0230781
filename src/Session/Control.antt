-- ===== src/Session/Control.antt =====
-- src/core/session/Session.cpp: pausing, resuming and stopping, whatever the order of the events.
use hermes_flow_server.Common.{
  ℕ, ◌≡◌, ◌+◌, ◌≤◌, refl, Bool, true, false, Option, List, [], ◌∷◌, All, arith, ltb, if◌then◌else◌,
}
use hermes_flow_server.Types.{success}
use hermes_flow_server.Session.{
  Session, Event, step, run, start, stop, stop_late, pause, resume, tick, loop_head, teardown,
  finalize_session, created, receiving, ticking, ended, is_receiving, is_ticking, session_complete,
  call_stop, call_stop_late, call_pause, call_resume, channel_ready, wait_aborted, started,
  timer_fired, construct,
}

-- No wake-up is lost: a session that waits on the channel and is not paused has a signal there.
abbrev pub IsWakeable : Session → Type 0
IsWakeable s =
    (if is_receiving s.position then (if s.is_paused then true else ltb 0 s.signals) else true)
    ≡ true

step-IsWakeable : (s : Session) (e : Event) → IsWakeable s → IsWakeable (step s e)
unfolding step stop stop_late pause resume start tick loop_head teardown finalize_session
step-IsWakeable s call_stop h = ground arith
step-IsWakeable s call_stop_late h = ground arith
step-IsWakeable s call_pause h = ground arith
step-IsWakeable s call_resume h = ground arith
step-IsWakeable s channel_ready h = ground arith
step-IsWakeable s wait_aborted h = ground arith
step-IsWakeable s (started p) h = ground arith
step-IsWakeable s (timer_fired b c) h = ground arith

run-IsWakeable : (s : Session) (es : List Event) → IsWakeable s → IsWakeable (run s es)
unfolding run
run-IsWakeable s [] h = h
run-IsWakeable s (e ∷ es) h = run-IsWakeable (step s e) es (step-IsWakeable s e h)

step-wakes :
    (s : Session)
    → IsWakeable s
    → is_receiving s.position ≡ true
    → s.is_paused ≡ false
    → is_receiving (step s channel_ready).position ≡ false
unfolding step loop_head teardown finalize_session
step-wakes s h r p = ground arith

construct-IsWakeable :
    (w : Bool) (port : Option ℕ) (encrypted : Bool) → IsWakeable (construct w port encrypted)
unfolding construct
construct-IsWakeable w port encrypted = refl

-- No wake-up is lost: whatever happened to a session since it was made, if it sleeps on the channel
-- and is not paused, a signal is there that wakes it.
pub resume_wakes :
    (w : Bool) (port : Option ℕ) (encrypted : Bool) (es : List Event)
    → is_receiving (run (construct w port encrypted) es).position ≡ true
    → (run (construct w port encrypted) es).is_paused ≡ false
    → is_receiving (step (run (construct w port encrypted) es) channel_ready).position ≡ false
resume_wakes w port encrypted es r p =
    let s = construct w port encrypted in
    step-wakes (run s es) (run-IsWakeable s es (construct-IsWakeable w port encrypted)) r p

abbrev pub is_resume : Event → Bool
is_resume call_resume = true
is_resume _ = false

abbrev pub HasNoResume : List Event → Type 0
HasNoResume = All (λ e. is_resume e ≡ false)

step-asleep :
    (s : Session) (e : Event)
    → s.position ≡ receiving
    → s.signals ≡ 0
    → is_resume e ≡ false
    → ((step s e).position ≡ receiving) × ((step s e).signals ≡ 0)
unfolding step stop stop_late pause resume start tick loop_head teardown finalize_session
step-asleep s call_stop p q h = ground arith
step-asleep s call_stop_late p q h = ground arith
step-asleep s call_pause p q h = ground arith
step-asleep s call_resume p q h = ground arith
step-asleep s channel_ready p q h = ground arith
step-asleep s wait_aborted p q h = ground arith
step-asleep s (started b) p q h = ground arith
step-asleep s (timer_fired b c) p q h = ground arith

run-asleep :
    (s : Session) (es : List Event)
    → s.position ≡ receiving
    → s.signals ≡ 0
    → HasNoResume es
    → (run s es).position ≡ receiving
unfolding run
run-asleep s [] p q h = p
run-asleep s (e ∷ es) p q h =
    let (p', q') = step-asleep s e p q h.0 in run-asleep (step s e) es p' q' h.1

-- A session that sleeps on an empty channel is not ended by `stop`: it sleeps on through all
-- events but a `resume`.
pub stop_while_paused :
    (s : Session) (es : List Event)
    → s.position ≡ receiving
    → s.signals ≡ 0
    → HasNoResume es
    → (run (stop s) es).position ≡ receiving
unfolding stop
stop_while_paused s es p q h = run-asleep (stop s) es (ground arith) q h

-- A session that waits for its next tick is ended by `stop` without another frame, and the observer
-- is told that it is complete.
pub stop_while_ticking :
    (s : Session)
    → s.position ≡ ticking
    → let s' = step (stop s) wait_aborted in
      (s'.position ≡ ended success)
      × (s'.is_running ≡ false)
      × (s'.frames_sent ≡ s.frames_sent)
      × (s'.notices ≡ (if s.has_observer then session_complete ∷ s.notices else s.notices))
unfolding step stop teardown finalize_session
stop_while_ticking s p = ground arith

-- A `stop` that comes before the coroutine of a session begins is lost: if the session is not
-- paused and its graph is prepared, it then runs and waits for its first tick.
pub stop_before_start :
    (s : Session)
    → s.position ≡ created
    → s.is_paused ≡ false
    → let s' = run s (call_stop ∷ started true ∷ []) in
      (s'.position ≡ ticking) × (s'.is_running ≡ true)
unfolding run step stop start loop_head
stop_before_start s p q = ground arith

-- The frames that were sent, and the one that a pending tick may send.
abbrev due : Session → ℕ
due s = s.frames_sent + (if is_ticking s.position then 1 else 0)

step-paused :
    (s : Session) (e : Event)
    → s.is_paused ≡ true
    → is_resume e ≡ false
    → ((step s e).is_paused ≡ true) × (due (step s e) ≤ due s)
unfolding step stop stop_late pause resume start tick loop_head teardown finalize_session
step-paused s call_stop p h = ground arith
step-paused s call_stop_late p h = ground arith
step-paused s call_pause p h = ground arith
step-paused s call_resume p h = ground arith
step-paused s channel_ready p h = ground arith
step-paused s wait_aborted p h = ground arith
step-paused s (started b) p h = ground arith
step-paused s (timer_fired b c) p h = ground arith

run-paused :
    (s : Session) (es : List Event) → s.is_paused ≡ true → HasNoResume es → due (run s es) ≤ due s
unfolding run
run-paused s [] p h = omega arith
run-paused s (e ∷ es) p h =
    let (q, l) = step-paused s e p h.0 in omega (arith, run-paused (step s e) es q h.1)

pause-due : (s : Session) → ((pause s).is_paused ≡ true) × (due (pause s) ≡ due s)
unfolding pause
pause-due s = ground arith

-- After `pause`, and until a `resume`, no more is sent than the frame of a tick that is pending
-- already.
pub pause_lem :
    (s : Session) (es : List Event)
    → HasNoResume es
    → (run (pause s) es).frames_sent ≤ s.frames_sent + (if is_ticking s.position then 1 else 0)
pause_lem s es h = let (p, d) = pause-due s in omega (arith, run-paused (pause s) es p h)
