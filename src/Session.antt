-- ===== src/Session.antt =====
-- src/core/session/Session.cpp: the coroutine that plays a session, its suspension points, and the
-- calls that reach it from outside.
pub mod Control
pub mod Loop
use hermes_flow_server.Common.{
  ℕ, ◌+◌, ◌-◌, ◌==◌, ◌&&◌, Bool, true, false, not, Option, none, some, List, [], ◌∷◌, ltb,
  if◌then◌else◌,
}
use hermes_flow_server.Types.{NodeErrorCode, success, initialization_failed}

-- Where the coroutine of `start` is: not begun, suspended in `async_receive` on the channel or in
-- `async_wait` on the timer, about to resume from a cancelled wait, or over.
pub data Position : Type 0 where
  created receiving ticking aborted : Position
  ended : NodeErrorCode → Position

-- What the observer is told. The code of an error stands for its message.
pub data Notice : Type 0 where
  error_notice : NodeErrorCode → Notice
  session_complete : Notice
  webrtc_request : ℕ → Notice

abbrev pub is_created : Position → Bool
is_created created = true
is_created _ = false

-- Where no coroutine of the session runs, and one may begin: not begun, or over.
abbrev pub is_idle : Position → Bool
is_idle created = true
is_idle (ended code) = true
is_idle _ = false

abbrev pub is_receiving : Position → Bool
is_receiving receiving = true
is_receiving _ = false

abbrev pub is_ticking : Position → Bool
is_ticking ticking = true
is_ticking _ = false

abbrev pub is_aborted : Position → Bool
is_aborted aborted = true
is_aborted _ = false

pub record Session : Type 0 where
  pub is_running : Bool
  pub is_paused : Bool
  -- signals in `resume_channel_`, which holds one
  pub signals : ℕ
  pub is_webrtc : Bool
  pub janus_port : Option ℕ
  pub has_observer : Bool
  pub is_encrypted : Bool
  pub position : Position
  pub notices : List Notice
  -- calls of `send_frame`
  pub frames_sent : ℕ

-- The constructor's state; `setup_security` is called where `is_encrypted` is set.
unfoldable pub construct : Bool → Option ℕ → Bool → Session
construct is_webrtc janus_port is_encrypted = record {
  is_running = false;
  is_paused = false;
  signals = 0;
  is_webrtc = is_webrtc;
  janus_port = janus_port;
  has_observer = false;
  is_encrypted = is_encrypted;
  position = created;
  notices = [];
  frames_sent = 0;
}

unfoldable pub attach_observer : Session → Session
attach_observer s = record s { has_observer = true }

-- `timer_.cancel()` ends a wait that is pending, and does nothing to any other position. A wait whose
-- end is in the queue already is not pending: see `stop_late`.
abbrev pub cancel : Position → Position
cancel ticking = aborted
cancel created = created
cancel receiving = receiving
cancel aborted = aborted
cancel (ended code) = ended code

unfoldable pub stop : Session → Session
stop s = record s { is_running = false; position = cancel s.position }

-- `stop`, where the timer has expired and the handler of its wait is in the queue: `cancel` does not
-- reach it, and the coroutine goes on as after any tick.
unfoldable pub stop_late : Session → Session
stop_late s = record s { is_running = false }

unfoldable pub pause : Session → Session
pause s = if not s.is_paused then record s { is_paused = true } else s

-- `try_send` fails on a full channel.
unfoldable pub resume : Session → Session
resume s =
    if s.is_paused
    then record s { is_paused = false; signals = if s.signals == 0 then 1 else s.signals }
    else s

abbrev pub notify : Notice → Session → Session
notify n s = if s.has_observer then record s { notices = n ∷ s.notices } else s

abbrev pub is_success : NodeErrorCode → Bool
is_success success = true
is_success _ = false

unfoldable pub finalize_session : NodeErrorCode → Session → Session
finalize_session code s = notify (if is_success code then session_complete else error_notice code) s

-- The end of `start`.
unfoldable pub teardown : NodeErrorCode → Session → Session
unfolding finalize_session
teardown code s = finalize_session code (record s { is_running = false; position = ended code })

-- The head of the loop of `run_main_audio_loop`, up to the next suspension.
unfoldable pub loop_head : Session → Session
unfolding teardown
loop_head s =
    if s.is_running
    then (if s.is_paused
        then record s { position = receiving }
        else record s { position = ticking })
    else teardown success s

-- The WebRTC branch of `configure_streamer_from_graph`, on a session with an observer. The other
-- branch only registers clients with the streamer.
abbrev pub request_webrtc : Bool → Option ℕ → Session → Session
request_webrtc true (some port) s = notify (webrtc_request port) s
request_webrtc true none s = s
request_webrtc false port s = s

-- `start`, whose graph could be prepared or not. `initialize_graph_execution` reports a failure
-- before `finalize_session` does.
unfoldable pub start : Bool → Session → Session
unfolding loop_head teardown
start prepared s =
    let running = record s { is_running = true } in
    if prepared
    then loop_head (request_webrtc s.is_webrtc s.janus_port running)
    else teardown initialization_failed (notify (error_notice initialization_failed) running)

-- `process_and_stream_single_frame`, for what the executor returned, and the turn of the loop.
unfoldable pub tick : Bool → NodeErrorCode → Session → Session
unfolding loop_head teardown
tick wants_continue status s =
    if wants_continue
    then loop_head (record s { frames_sent = s.frames_sent + 1 })
    else teardown status s

-- What may happen to a session. An event that does not fit the coroutine's position is none. `start`
-- itself has no guard: a session that is over may be started again. Two coroutines of one session at
-- a time are not represented; `is_running` keeps the second one off once the first has begun.
pub data Event : Type 0 where
  call_stop call_stop_late call_pause call_resume channel_ready wait_aborted : Event
  started : Bool → Event
  timer_fired : Bool → NodeErrorCode → Event

unfoldable pub step : Session → Event → Session
unfolding stop stop_late pause resume start tick loop_head teardown
step s call_stop = stop s
step s call_stop_late = stop_late s
step s call_pause = pause s
step s call_resume = resume s
step s (started prepared) = if is_idle s.position then start prepared s else s
step s (timer_fired wants_continue status) =
    if is_ticking s.position then tick wants_continue status s else s
step s wait_aborted = if is_aborted s.position then teardown success s else s
step s channel_ready =
    if is_receiving s.position && ltb 0 s.signals
    then loop_head (record s { signals = s.signals - 1 })
    else s

unfoldable pub run : Session → List Event → Session
run s [] = s
run s (e ∷ es) = run (step s e) es
