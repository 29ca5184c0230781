-- ===== src/Session/Loop/Creation.antt =====
-- src/core/session/Session.cpp, `Session::create` and the constructor: the executor, the streamer and
-- its security.
use hermes_flow_server.Common.{
  ℕ, ◌≡◌, refl, Bool, true, false, Option, none, some, [], if◌then◌else◌, not, ◌==◌,
}
use hermes_flow_server.Common.Expected.{Expected, value, unexpected, or_fail, ◌>>=◌}
use hermes_flow_server.Types.{AppError}
use hermes_flow_server.Graph.{Graph}
use hermes_flow_server.Graph.Executor.{AudioExecutor}
use hermes_flow_server.Graph.Executor.Loops as Executor
use hermes_flow_server.Rtp.Packetizer.{RtpPacketizer}
use hermes_flow_server.Rtp.Streamer as Rtp
use hermes_flow_server.Rtp.Streamer.{RtpStreamer}
use hermes_flow_server.Session as Control
use hermes_flow_server.Sessions as Active
use hermes_flow_server.Sessions.{Failure, failed, thrown}
use hermes_flow_server.Session.Loop.{Playing}

-- `AudioExecutor::create` fails for a graph without a start node alone.
abbrev pub has_start : Option ℕ → Bool
has_start none = false
has_start (some i) = true

module _ {Ratio : Type 0} where
  abbrev secured :
      (RtpStreamer Ratio → Option (RtpStreamer Ratio))
      → RtpStreamer Ratio
      → Bool
      → Option (RtpStreamer Ratio)
  secured secure streamer true = secure streamer
  secured secure streamer false = some streamer

  -- The members of a new session. The clocks have no value before the loop begins.
  abbrev members : AudioExecutor → Bool → Option ℕ → Bool → RtpStreamer Ratio → Playing Ratio
  members executor is_webrtc janus_port is_encrypted streamer = record {
    session = Control.construct is_webrtc janus_port is_encrypted;
    executor = executor;
    streamer = streamer;
    next_tick = 0;
    last_stats_time = 0;
    packets_sent = 0;
    datagrams = [];
    updates = [];
  }

  -- The constructor. `secure` is `setup_security` under the keys of the configuration, which may throw.
  unfoldable pub construct :
      (RtpStreamer Ratio → Option (RtpStreamer Ratio))
      → AudioExecutor
      → RtpStreamer Ratio
      → Bool
      → Option ℕ
      → Bool
      → Expected Failure (Playing Ratio)
  construct secure executor streamer is_webrtc janus_port is_encrypted = do
    streamer' ← or_fail (secured secure streamer is_encrypted) thrown
    value (members executor is_webrtc janus_port is_encrypted streamer')

  abbrev created_with :
      (RtpStreamer Ratio → Option (RtpStreamer Ratio))
      → RtpPacketizer
      → Bool
      → Option ℕ
      → Bool
      → Expected AppError AudioExecutor
      → Expected Failure (Playing Ratio)
  created_with secure packetizer is_webrtc janus_port is_encrypted (unexpected e) =
      unexpected (failed e)
  created_with secure packetizer is_webrtc janus_port is_encrypted (value executor) =
      construct secure executor (Rtp.create Ratio packetizer) is_webrtc janus_port is_encrypted

  -- `Session::create`, for a packetizer that starts at random values.
  unfoldable pub create :
      (RtpStreamer Ratio → Option (RtpStreamer Ratio))
      → Graph
      → RtpPacketizer
      → Bool
      → Option ℕ
      → Bool
      → Expected Failure (Playing Ratio)
  unfolding construct
  create secure g packetizer is_webrtc janus_port is_encrypted =
      created_with secure packetizer is_webrtc janus_port is_encrypted (Executor.create g)

  abbrev session_of : Expected Failure (Playing Ratio) → Expected Failure Control.Session
  session_of (value p) = value p.session
  session_of (unexpected e) = unexpected e

  abbrev is_thrown : Option (RtpStreamer Ratio) → Bool
  is_thrown none = true
  is_thrown (some s) = false

  -- The registry's view of the making of a session, which asks whether there is a start node and, for
  -- an encrypted session, whether the salt has 16 bytes, as `secure` does.
  create-session :
      (secure : RtpStreamer Ratio → Option (RtpStreamer Ratio)) (g : Graph)
      (packetizer : RtpPacketizer) (is_webrtc : Bool) (janus_port : Option ℕ) (is_encrypted : Bool)
      (salt_size : ℕ)
      → ((s : RtpStreamer Ratio) → is_thrown (secure s) ≡ not (salt_size == 16))
      → session_of (create secure g packetizer is_webrtc janus_port is_encrypted)
        ≡ Active.create (has_start g.start_node) is_webrtc janus_port is_encrypted salt_size
  unfolding create construct Executor.create Active.create
  create-session secure g packetizer is_webrtc janus_port is_encrypted salt_size h =
      by_start is_encrypted g.start_node
    where
      made :
          (executor : AudioExecutor) (r : Option (RtpStreamer Ratio)) (b : Bool)
          → is_thrown r ≡ b
          → session_of
              (or_fail r thrown >>= λ s. value (members executor is_webrtc janus_port true s))
            ≡ if◌then◌else◌ {A = Expected Failure Control.Session} b
                (unexpected thrown)
                (value (Control.construct is_webrtc janus_port true))
      made executor none true e = refl
      made executor none false e = absurd cc
      made executor (some s) true e = absurd cc
      made executor (some s) false e = refl

      by_start :
          (encrypted : Bool) (start : Option ℕ)
          → session_of (
              created_with secure packetizer is_webrtc janus_port encrypted
                (Executor.create_at g.nodes start))
            ≡ Active.create (has_start start) is_webrtc janus_port encrypted salt_size
      by_start encrypted none = refl
      by_start false (some i) = refl
      by_start true (some i) = made _ (secure (Rtp.create Ratio packetizer)) _ (h _)
