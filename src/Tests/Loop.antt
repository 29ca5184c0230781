-- ===== src/Tests/Loop.antt =====
-- The audio loop at concrete inputs: a session that plays two delays.
use hermes_flow_server.Common.{
  ℕ, ◌+◌, ◌-◌, ◌*◌, ◌≤◌, ◌≡◌, refl, Bool, true, false, List, [], ◌∷◌, ◌++◌, none, some, arith, take,
}
use hermes_flow_server.Types.{success}
use hermes_flow_server.Buffer.{zeros, length-zeros}
use hermes_flow_server.Audio.Alaw.{make_encode_table}
use hermes_flow_server.Graph.{Node, delay}
use hermes_flow_server.Graph.Parse.{new_node}
use hermes_flow_server.Graph.Executor.{AudioExecutor, get_next_frame, process_as, after_process}
use hermes_flow_server.Graph.Executor.Chain.{
  Place, Follows, AreDistinct, until_stop, chain_frames_lem,
}
use hermes_flow_server.Rtp.Streamer.{create}
use hermes_flow_server.Rtp.Streamer.Stream.{IsFrame, to_each}
use hermes_flow_server.Session.{
  Session, construct, run, ended, ticking, created, is_ticking, attach_observer,
}
use hermes_flow_server.Session.Loop.{
  Playing, Happening, begun, fired, woken, pause_called, resume_called, play_all, play,
  audio_tick_interval, on_begin, on_tick, ticked, armed, streamed, update_stats_if_needed,
}
use hermes_flow_server.Session.Loop.Pace.{AreTimed, last_time, play_all_paced}
use hermes_flow_server.Session.Loop.Drift.{play_all-ticks}
use hermes_flow_server.Session.Loop.Updates.{AreSpaced, play_all_spaced}
use hermes_flow_server.Session.Loop.Turns.{told, ticks}
use hermes_flow_server.Session.Loop.Started.{started_lem, create-IsSound}
use hermes_flow_server.Session.Loop as Loop
use hermes_flow_server.Tests.Rtp.{packetizer, alice}
use hermes_flow_server.Session as Control
use hermes_flow_server.Tests.Rtp.{
  streamer, is_positive, below, packetizer-InRange, packetizer-Formatted, zeros-All,
}

abbrev always : ℕ → Bool
always i = true

-- A delay of two frames, and one of a frame after it.
abbrev two_frames : Node
two_frames = record (new_node 7 delay 2) { target = some 1 }

abbrev one_frame : Node
one_frame = new_node 8 delay 1

abbrev executor : AudioExecutor
executor = record {
  nodes = two_frames ∷ one_frame ∷ [];
  current_node = some 0;
  current_node_id = 7;
  total_bytes_sent = 0;
}

abbrev path : List Place
path = (1, one_frame) ∷ []

path-Follows : Follows executor.nodes executor.current_node ((0, two_frames) ∷ path)
path-Follows = (
  refl,
  record { at = refl; kind = refl; rewound = refl; positive = omega arith },
  (refl, record { at = refl; kind = refl; rewound = refl; positive = omega arith }, refl),
)

path-AreDistinct : AreDistinct ((0, two_frames) ∷ path)
path-AreDistinct = ((λ e. omega (arith, e), tt), (tt, tt))

chain_frames_lem_example : until_stop always always 3 executor ≡ some (3 - 1, success)
chain_frames_lem_example =
    chain_frames_lem always always 3 executor (0, two_frames) path path-Follows path-AreDistinct
      (omega arith)

-- A session that was made at the time 0 and has not begun.
abbrev waiting : Playing ℕ
waiting = record {
  session = attach_observer (construct false none false);
  executor = executor;
  streamer = streamer;
  next_tick = 0;
  last_stats_time = 0;
  packets_sent = 0;
  datagrams = [];
  updates = [];
}

abbrev second : ℕ
second = 1000000000

-- It begins after a second, ticks late, and is paused and resumed.
abbrev day : List (Happening ℕ)
day =
    begun true none none second
    ∷ fired always always (zeros 320) (second + 200000000)
    ∷ pause_called
    ∷ fired always always (zeros 320) (second + 200000001)
    ∷ resume_called
    ∷ woken (2 * second)
    ∷ []

waiting-AreTimed : AreTimed 0 is_positive below (make_encode_table (zeros 65536)) 0 waiting day
unfolding play on_begin on_tick ticked armed streamed update_stats_if_needed construct
    attach_observer hermes_flow_server.Session.start hermes_flow_server.Session.loop_head
    hermes_flow_server.Session.tick hermes_flow_server.Session.pause
    hermes_flow_server.Session.resume get_next_frame process_as after_process
waiting-AreTimed = (
  omega arith,
  tt,
  (
    omega arith,
    omega arith,
    (omega arith, tt, (omega arith, omega arith, (omega arith, tt, (omega arith, tt, tt)))),
  ),
)

play_all_paced_example :
    0
      + audio_tick_interval
        * (play_all 0 is_positive below
            (make_encode_table (zeros 65536))
            waiting
            day).session.frames_sent
    ≤ last_time 0 day
unfolding construct attach_observer
play_all_paced_example =
    play_all_paced 0 is_positive below (make_encode_table (zeros 65536)) 0 waiting day refl refl
      waiting-AreTimed

play_all_spaced_example :
    AreSpaced (play_all 0 is_positive below (make_encode_table (zeros 65536)) waiting day).updates
play_all_spaced_example =
    play_all_spaced 0 is_positive below (make_encode_table (zeros 65536)) 0 waiting day refl
      (omega arith) waiting-AreTimed

-- The session as its start leaves it.
abbrev playing : Playing ℕ
playing = record waiting {
  session = record {
    is_running = true;
    is_paused = false;
    signals = 0;
    is_webrtc = false;
    janus_port = none;
    has_observer = true;
    is_encrypted = false;
    position = ticking;
    notices = [];
    frames_sent = 0;
  };
  next_tick = 20000000;
}

abbrev frames : List (List ℕ × ℕ)
frames = (zeros 320, 20000000) ∷ (zeros 320, 40000000) ∷ (zeros 320, 60000000) ∷ []

zeros-IsFrame : IsFrame (zeros 320)
zeros-IsFrame = record { size = length-zeros 320; bytes = zeros-All 320 }

abbrev two_ticks : List (Happening ℕ)
two_ticks = ticks always always (take 2 frames)

play_all-ticks_example :
    let over = play_all 0 is_positive below (make_encode_table (zeros 65536)) playing two_ticks in
    (over.next_tick ≡ 20000000 + audio_tick_interval * 2)
    × (over.session.frames_sent ≡ 0 + 2)
    × (is_ticking playing.session.position ≡ true)
unfolding play_all play on_tick ticked armed streamed update_stats_if_needed
    hermes_flow_server.Session.loop_head hermes_flow_server.Session.tick get_next_frame process_as
    after_process
play_all-ticks_example =
    play_all-ticks 0 is_positive below (make_encode_table (zeros 65536)) playing two_ticks
      (refl, (refl, tt)) refl

-- The session as it was created, with an observer.
abbrev fresh : Playing ℕ
fresh = record waiting { streamer = create ℕ packetizer }

-- A client that has an address, and one that has none.
abbrev clients : List (Loop.Target ℕ)
clients = (some alice, 0) ∷ (none, 0) ∷ []

started_lem_example :
    let over =
      play_all 0 is_positive below
        (make_encode_table (zeros 65536))
        fresh
        (begun true none (some clients) 5 ∷ ticks always always frames) in
    let streamer' =
      Loop.configure_streamer_from_graph 0 none (some clients) fresh.session fresh.streamer in
    (over.session.position ≡ ended success)
    × (over.session.frames_sent ≡ 0 + 2)
    × (over.session.notices ≡ told (Control.start true fresh.session) success)
    × (over.datagrams
        ≡ []
          ++ to_each is_positive below streamer'.ring_index streamer'.clients
              (zeros 320 ∷ zeros 320 ∷ []))
unfolding construct attach_observer
started_lem_example =
    started_lem is_positive below 0 (zeros 65536) always always none (some clients) 5 frames fresh
      (0, two_frames) path (length-zeros 65536)
      (zeros-IsFrame, (zeros-IsFrame, (zeros-IsFrame, tt))) refl refl
      (create-IsSound is_positive below packetizer packetizer-InRange packetizer-Formatted)
      (refl, (refl, tt)) refl path-Follows path-AreDistinct (omega arith)
