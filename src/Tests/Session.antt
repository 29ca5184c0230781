-- ===== src/Tests/Session.antt =====
-- Sessions and their registry at concrete inputs.
use hermes_flow_server.Common.{
  ◌+◌, ◌≤◌, ◌≡◌, refl, true, false, List, [], ◌∷◌, ◌++◌, none, some, arith, if◌then◌else◌, ◌==◌,
}
use mathlib.Core.Option
use mathlib.Core.Bool.{false≢true}
use hermes_flow_server.Common.Expected.{value, unexpected}
use hermes_flow_server.Types.{success, underrun, parse_error}
use hermes_flow_server.Session.{
  Session, Event, run, stop, pause, receiving, ticking, ended, is_ticking, call_stop, call_resume,
  call_pause, started, is_receiving, channel_ready, wait_aborted, timer_fired,
}
use hermes_flow_server.Session as Playing
use hermes_flow_server.Session.Control.{resume_wakes, stop_while_paused, pause_lem}
use hermes_flow_server.Sessions.{
  ActiveSessions, Op, create_op, websocket_op, put_op, remove_op, pause_op, web_rtc, standard,
  create_session, remove_session, get, find, contains, fill_ports,
}
use hermes_flow_server.Sessions as Active
use hermes_flow_server.Sessions.Ports.{create_session_webrtc}
use hermes_flow_server.Sessions.Lifecycle.{IsConsistent, run-IsConsistent, remove_session_lem}

abbrev asleep : Session
asleep = record {
  is_running = true;
  is_paused = true;
  signals = 0;
  is_webrtc = false;
  janus_port = none;
  has_observer = true;
  is_encrypted = false;
  position = receiving;
  notices = [];
  frames_sent = 7;
}

abbrev playing : Session
playing = record asleep { is_paused = false; position = ticking }

abbrev waiting : List Event
waiting = channel_ready ∷ wait_aborted ∷ call_stop ∷ timer_fired true underrun ∷ []

stop_while_paused_example : (run (stop asleep) waiting).position ≡ receiving
stop_while_paused_example =
    stop_while_paused asleep waiting refl refl (refl, (refl, (refl, (refl, tt))))

-- A session that pauses before it begins, and is resumed.
abbrev slept : List Event
slept = call_pause ∷ started true ∷ call_resume ∷ []

resume_wakes_example :
    is_receiving
      (Playing.step (run (Playing.construct false none false) slept) channel_ready).position
    ≡ false
unfolding run Playing.step Playing.construct hermes_flow_server.Session.pause
    hermes_flow_server.Session.start hermes_flow_server.Session.loop_head
    hermes_flow_server.Session.resume
resume_wakes_example = resume_wakes false none false slept refl refl

pause_lem_example :
    (run (pause playing) (timer_fired true success ∷ channel_ready ∷ [])).frames_sent
    ≤ playing.frames_sent + (if is_ticking playing.position then 1 else 0)
pause_lem_example =
    pause_lem playing (timer_fired true success ∷ channel_ready ∷ []) (refl, (refl, tt))

abbrev registry : ActiveSessions
registry = record {
  next_session_id = 0;
  available_webrtc_ports = 6000 ∷ [];
  sessions = [];
  websocket_sessions = [];
  salt_size = 16;
}

abbrev operations : List Op
operations =
    create_op 1 (value true) web_rtc
    ∷ websocket_op 1
    ∷ create_op 2 (unexpected parse_error) standard
    ∷ put_op 1
    ∷ pause_op 1
    ∷ []

registry-IsConsistent : IsConsistent registry
registry-IsConsistent = record {
  sessions_distinct = tt;
  websockets_distinct = tt;
  belongs = λ id c. absurd (false≢true c);
}

create_session_webrtc_example :
    let (r, a') = create_session 1 (value true) web_rtc registry in
    (r ≡ value 1)
    × (get a' 1 ≡ some (Playing.construct true (some 6000) false))
    × (a'.available_webrtc_ports ≡ [] ++ 6000 ∷ [])
create_session_webrtc_example = create_session_webrtc registry 1 6000 [] refl

run-IsConsistent_example : IsConsistent (Active.run registry operations)
unfolding Active.step create_session Active.create_and_run_websocket_session
    hermes_flow_server.Session.construct
run-IsConsistent_example =
    run-IsConsistent registry operations (tt, (tt, (tt, (refl, (tt, tt))))) registry-IsConsistent

abbrev populated : ActiveSessions
populated = record registry {
  sessions = (1, asleep) ∷ (2, playing) ∷ [];
  websocket_sessions = 2 ∷ [];
}

populated-IsConsistent : IsConsistent populated
populated-IsConsistent = record {
  sessions_distinct = (refl, (refl, tt));
  websockets_distinct = (refl, tt);
  belongs = λ id c. ground arith;
}

remove_session_lem_example :
    let (status, stopped, a') = remove_session 1 populated in
    (get a' 2 ≡ (if 1 == 2 then none else get populated 2))
    × (contains 2 a'.websocket_sessions
        ≡ (if 1 == 2 then false else contains 2 populated.websocket_sessions))
    × (stopped ≡ Option.map stop (get populated 1))
remove_session_lem_example = remove_session_lem populated 1 2 populated-IsConsistent
