-- ===== src/Session/Loop.antt =====
-- src/core/session/Session.cpp: the audio loop with its clocks and statistics, over the executor and the
-- streamer. Times are in nanoseconds of the steady clock. The coroutine's position and what the
-- observer is told of the end are those of `Session`.
pub mod Creation
pub mod Refines
pub mod Effects
pub mod Pace
pub mod Drift
pub mod Updates
pub mod Turns
pub mod Playback
pub mod Started
use hermes_flow_server.Common.{
  ℕ, ◌+◌, ◌*◌, ◌^◌, ◌%◌, Bool, true, false, Option, none, some, List, [], ◌∷◌, ◌++◌, ltb, ◌&&◌,
  if◌then◌else◌,
}
use hermes_flow_server.Types.{NodeErrorCode, success, underrun, end_of_stream}
use hermes_flow_server.Session.{
  Session, is_idle, is_receiving, is_ticking, is_aborted, stop, stop_late, pause, resume, start,
  tick, step, Event, channel_ready, wait_aborted, call_stop, call_stop_late, call_pause,
  call_resume, started, timer_fired,
}
use hermes_flow_server.Graph.Executor.{AudioExecutor, get_next_frame}
use hermes_flow_server.Rtp.Streamer.{Endpoint, RtpStreamer, Send, add_client, send_frame}

-- `config::AUDIO_TICK_INTERVAL`
abbrev pub audio_tick_interval : ℕ
audio_tick_interval = 20 * 10 ^ 6

abbrev pub stats_update_interval : ℕ
stats_update_interval = 100 * 10 ^ 6

-- What an update shows beside the session's identifier.
pub record SessionStats : Type 0 where
  pub current_node_id : ℕ
  pub total_bytes_sent : ℕ
  pub packets_sent : ℕ
  pub underruns : ℕ

-- A session that plays, with its executor and its streamer: the two clocks of the loop, the counter
-- of the statistics, the datagrams handed to the network, and the updates of the observer, the last
-- first, with their times.
pub record Playing (Ratio : Type 0) : Type 0 where
  pub session : Session
  pub executor : AudioExecutor
  pub streamer : RtpStreamer Ratio
  pub next_tick : ℕ
  pub last_stats_time : ℕ
  pub packets_sent : ℕ
  pub datagrams : List Send
  pub updates : List (ℕ × SessionStats)

-- `is_status_ok`, with the counter of underruns. The loop does not call it.
unfoldable is_status_ok : NodeErrorCode → ℕ → Bool × ℕ
is_status_ok success underruns = (true, underruns)
is_status_ok underrun underruns = (true, (underruns + 1) % 2 ^ 64)
is_status_ok end_of_stream underruns = (true, underruns)
is_status_ok _ underruns = (false, underruns)

-- A client of the graph, with the endpoint that its text resolves to.
abbrev pub Target : Type 0 → Type 0
Target Ratio = Option Endpoint × Ratio

-- What happens to the session: a call from outside, or an end of a wait of its coroutine, at a time.
-- `begun` has whether the graph could be prepared, the resolved address of Janus and the clients of
-- the graph's clients node, where it has one. `fired` has what the executor asks of its files, and
-- the bytes that the frame holds. A `begun` after an end of the session finds the executor as the first
-- run left it: what its `prepare` then does is not represented.
pub data Happening (Ratio : Type 0) : Type 0 where
  stop_called late_stop_called pause_called resume_called aborted : Happening Ratio
  begun : Bool → Option Endpoint → Option (List (Target Ratio)) → ℕ → Happening Ratio
  woken : ℕ → Happening Ratio
  fired : (ready closes : ℕ → Bool) → List ℕ → ℕ → Happening Ratio

module _ {Ratio : Type 0} where
  unfoldable add_all : List (Target Ratio) → RtpStreamer Ratio → RtpStreamer Ratio
  add_all [] s = s
  add_all ((ep, ratio) ∷ targets) s = add_all targets (add_client s ep ratio)

  -- The clients that `configure_streamer_from_graph` registers. `no_loss` is the ratio 0.
  abbrev targets_of :
      Ratio → Bool → Option ℕ → Option Endpoint → Option (List (Target Ratio)) → List (Target Ratio)
  targets_of no_loss true (some port) janus clients = (janus, no_loss) ∷ []
  targets_of no_loss true none janus clients = []
  targets_of no_loss false port janus (some clients) = clients
  targets_of no_loss false port janus none = []

  unfoldable pub configure_streamer_from_graph :
      Ratio
      → Option Endpoint
      → Option (List (Target Ratio))
      → Session
      → RtpStreamer Ratio
      → RtpStreamer Ratio
  unfolding add_all
  configure_streamer_from_graph no_loss janus clients s streamer =
      add_all (targets_of no_loss s.is_webrtc s.janus_port janus clients) streamer

  -- `wait_for_next_tick`, up to its suspension, where the loop comes to it.
  unfoldable pub armed : Playing Ratio → Playing Ratio
  armed p = record p {
    next_tick =
        if is_ticking p.session.position then p.next_tick + audio_tick_interval else p.next_tick;
  }

  unfoldable get_stats : Playing Ratio → SessionStats
  get_stats p = record {
    current_node_id = p.executor.current_node_id;
    total_bytes_sent = p.executor.total_bytes_sent;
    packets_sent = p.packets_sent;
    underruns = 0;
  }

  unfoldable pub update_stats_if_needed : ℕ → Playing Ratio → Playing Ratio
  unfolding get_stats
  update_stats_if_needed now p =
      if p.session.has_observer
      then (if ltb (p.last_stats_time + stats_update_interval) now
          then record p { updates = (now, get_stats p) ∷ p.updates; last_stats_time = now }
          else p)
      else p

  unfoldable pub on_begin :
      Ratio
      → Bool
      → Option Endpoint
      → Option (List (Target Ratio))
      → ℕ
      → Playing Ratio
      → Playing Ratio
  unfolding configure_streamer_from_graph armed
  on_begin no_loss prepared janus clients now p =
      let p' : Playing Ratio = record p { session = start prepared p.session } in
      if prepared
      then armed (record p' {
        streamer = configure_streamer_from_graph no_loss janus clients p.session p.streamer;
        next_tick = now;
        last_stats_time = now;
      })
      else p'

  -- The end of `wait_for_resume`, which sets both clocks, and the turn of the loop.
  unfoldable pub on_wake : ℕ → Playing Ratio → Playing Ratio
  unfolding armed
  on_wake now p =
      armed (record p {
        session = step p.session channel_ready;
        next_tick = now;
        last_stats_time = now;
      })

module _ {Ratio : Type 0} (is_positive : Ratio → Bool) (below : ℕ → Ratio → Bool)
    (table : List ℕ) where
  -- `process_and_stream_single_frame`, after a frame that the executor wants to continue from.
  unfoldable pub streamed : List ℕ → ℕ → Playing Ratio → Playing Ratio
  unfolding update_stats_if_needed
  streamed frame now p =
      let (sends, streamer) = send_frame is_positive below table p.streamer frame in
      update_stats_if_needed now (record p {
        streamer = streamer;
        packets_sent = (p.packets_sent + 1) % 2 ^ 64;
        datagrams = p.datagrams ++ sends;
      })

  -- What follows the executor's answer, and the turn of the loop.
  unfoldable pub ticked :
      List ℕ → ℕ → Playing Ratio → Bool × NodeErrorCode × AudioExecutor → Playing Ratio
  unfolding streamed armed
  ticked frame now p (true, status, executor) =
      armed (
        streamed frame now (record p { executor = executor; session = tick true status p.session }))
  ticked frame now p (false, status, executor) = record p {
    executor = executor;
    session = tick false status p.session;
  }

  unfoldable pub on_tick : (ready closes : ℕ → Bool) → List ℕ → ℕ → Playing Ratio → Playing Ratio
  unfolding ticked
  on_tick ready closes frame now p = ticked frame now p (get_next_frame ready closes p.executor)

module _ {Ratio : Type 0} (no_loss : Ratio) (is_positive : Ratio → Bool) (below : ℕ → Ratio → Bool)
    (table : List ℕ) where
  unfoldable pub play : Playing Ratio → Happening Ratio → Playing Ratio
  unfolding on_tick on_begin on_wake
  play p stop_called = record p { session = stop p.session }
  play p late_stop_called = record p { session = stop_late p.session }
  play p pause_called = record p { session = pause p.session }
  play p resume_called = record p { session = resume p.session }
  play p aborted = record p { session = step p.session wait_aborted }
  play p (begun prepared janus clients now) =
      if is_idle p.session.position then on_begin no_loss prepared janus clients now p else p
  play p (woken now) =
      if is_receiving p.session.position && ltb 0 p.session.signals then on_wake now p else p
  play p (fired ready closes frame now) =
      if is_ticking p.session.position
      then on_tick is_positive below table ready closes frame now p
      else p

  unfoldable pub play_all : Playing Ratio → List (Happening Ratio) → Playing Ratio
  unfolding play
  play_all p [] = p
  play_all p (e ∷ es) = play_all (play p e) es
