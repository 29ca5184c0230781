-- ===== src/Http/Server.antt =====
-- src/network/http/Server.cpp: the parts of the server, their making, and its start and stop. The calls
-- of the network are `Acceptor`, and `make_address` is a parameter.
use hermes_flow_server.Common.{
  ℕ, ◌+◌, ◌-◌, ◌<◌, ◌≤◌, ◌≡◌, refl, ap, ◌∙◌, Bool, true, false, Option, none, some, List, [], arith,
  length, ◌==◌, ◌||◌, not, if◌then◌else◌,
}
use mathlib.Core.Option
use Prim.Native.String.{String}
use hermes_flow_server.Common.Expected.{Expected, value, unexpected, or_fail, ◌>>=◌}
use hermes_flow_server.Types.{AppError, config_error, network_error}
use hermes_flow_server.Config.{AppConfig}
use hermes_flow_server.Infra.IoContextPool as Pool
use hermes_flow_server.Infra.IoContextPool.{IoContextPool}
use hermes_flow_server.Sessions.{ActiveSessions, fill_ports}
use hermes_flow_server.Sessions.Ports.{range, fill_ports_lem}
use hermes_flow_server.Http.Listener as Listener
use hermes_flow_server.Http.Listener.{Acceptor}

-- The server: whether its own context was stopped, and whether connections are accepted on it.
pub record Server : Type 0 where
  pub is_main_stopped : Bool
  pub pool : IoContextPool
  pub active_sessions : ActiveSessions
  pub is_accepting : Bool

-- `ActiveSessions::ActiveSessions`, for the size of the configuration's salt and the ports that its
-- loop put into the queue.
abbrev new_sessions : ℕ → List ℕ → ActiveSessions
new_sessions salt_size ports = record {
  next_session_id = 0;
  available_webrtc_ports = ports;
  sessions = [];
  websocket_sessions = [];
  salt_size = salt_size;
}

-- The private constructor.
abbrev pub construct : IoContextPool → ActiveSessions → Server
construct pool sessions = record {
  is_main_stopped = false;
  pool = pool;
  active_sessions = sessions;
  is_accepting = false;
}

module _ {Address : Type 0} (make_address : String → Option Address) where
  -- What `create` does once it has the pool and the sessions.
  unfoldable listen_with :
      AppConfig → Acceptor → IoContextPool → ActiveSessions → Expected AppError Server
  listen_with cfg acceptor pool sessions = do
    _ ← or_fail (make_address cfg.server.address) config_error
    listening ← Listener.create acceptor
    value (construct pool sessions)

  abbrev create_with :
      ℕ → AppConfig → Acceptor → Expected AppError IoContextPool → Option (Expected AppError Server)
  create_with fuel cfg acceptor (unexpected e) = some (unexpected e)
  create_with fuel cfg acceptor (value pool) =
      Option.map
        (λ ports. listen_with cfg acceptor pool (new_sessions (length cfg.crypto.salt) ports))
        (fill_ports fuel cfg.janus.port_start cfg.janus.port_end [])

  -- `Server::create`; `none` is a loop over the ports that is not over when the fuel is.
  unfoldable pub create : ℕ → AppConfig → Acceptor → Option (Expected AppError Server)
  unfolding listen_with
  create fuel cfg acceptor = create_with fuel cfg acceptor (Pool.create cfg.server.threads)

  -- Whether each of the four calls on the acceptor goes well.
  abbrev is_bound : Acceptor → Bool
  is_bound a = not (a.open_error || (a.set_option_error || (a.bind_error || a.listen_error)))

  abbrev is_address : Option Address → Bool
  is_address none = false
  is_address (some a) = true

  listen_with_lem :
      (cfg : AppConfig) (acceptor : Acceptor) (pool : IoContextPool) (sessions : ActiveSessions)
      → listen_with cfg acceptor pool sessions ≡ (
          if is_address (make_address cfg.server.address)
          then (if is_bound acceptor
              then value (construct pool sessions)
              else unexpected network_error)
          else unexpected config_error)
  unfolding listen_with Listener.create
  listen_with_lem cfg acceptor pool sessions = ground arith

  by_threads :
      (b : Bool) (fuel : ℕ) (cfg : AppConfig) (acceptor : Acceptor) (pool : IoContextPool)
      (ports : List ℕ)
      → fill_ports fuel cfg.janus.port_start cfg.janus.port_end [] ≡ some ports
      → create_with fuel cfg acceptor (if b then unexpected config_error else value pool)
        ≡ some (
            if b
            then unexpected config_error
            else (if is_address (make_address cfg.server.address)
                then (if is_bound acceptor
                    then value (construct pool (new_sessions (length cfg.crypto.salt) ports))
                    else unexpected network_error)
                else unexpected config_error))
  by_threads true fuel cfg acceptor pool ports h = refl
  by_threads false fuel cfg acceptor pool ports h =
      ap
        (Option.map
          (λ ports. listen_with cfg acceptor pool (new_sessions (length cfg.crypto.salt) ports)))
        h
      ∙ ap some (listen_with_lem cfg acceptor pool (new_sessions (length cfg.crypto.salt) ports))

  -- The making of the server ends for a range of ports that ends below 65535, and gives a server where
  -- there is a thread at least, the address is one and the acceptor takes its four calls: with a
  -- context for each thread, every port of the range in order, and no session. No thread or no address
  -- is an error of the configuration, a call that fails one of the network.
  pub create_lem :
      (fuel : ℕ) (cfg : AppConfig) (acceptor : Acceptor)
      → cfg.janus.port_start ≤ cfg.janus.port_end
      → cfg.janus.port_end < 65535
      → cfg.janus.port_end + 1 - cfg.janus.port_start < fuel
      → create fuel cfg acceptor
        ≡ some (
            if cfg.server.threads == 0
            then unexpected config_error
            else (if is_address (make_address cfg.server.address)
                then (if is_bound acceptor
                    then value (
                        construct (Pool.construct cfg.server.threads) (
                          new_sessions (length cfg.crypto.salt) (
                            range cfg.janus.port_start
                              (cfg.janus.port_end + 1 - cfg.janus.port_start))))
                    else unexpected network_error)
                else unexpected config_error))
  unfolding create Pool.create
  create_lem fuel cfg acceptor l u h =
      let ports = range cfg.janus.port_start (cfg.janus.port_end + 1 - cfg.janus.port_start) in
      let filled = fill_ports_lem fuel cfg.janus.port_start cfg.janus.port_end l u h in
      let pool = Pool.construct cfg.server.threads in
      by_threads (cfg.server.threads == 0) fuel cfg acceptor pool ports filled

-- `start`, up to the call of `run` on the server's own context, which returns once it is stopped.
unfoldable pub start : Server → Server
start s = record s { pool = Pool.run s.pool; is_accepting = true }

unfoldable pub stop : Server → Server
stop s = record s { pool = Pool.stop s.pool; is_main_stopped = true }
