-- ===== src/App.antt =====
-- src/app/main.cpp: from the configuration to the exit code. The set-up of the logger and the
-- registration of the nodes are not here.
use hermes_flow_server.Common.{ℕ, ◌≡◌, refl, Bool, true, false, Option, none, some}
use mathlib.Core.Option
use Prim.Native.String.{String}
use hermes_flow_server.Common.Int.{ℤ}
use hermes_flow_server.Common.Expected.{Expected, value, unexpected}
use hermes_flow_server.Types.{AppError}
use hermes_flow_server.Config.{
  AppConfig, File, absent, Loaded, loaded, refused, thrown, load_config,
}
use hermes_flow_server.Http.Server as Server
use hermes_flow_server.Http.Listener.{Acceptor}

pub data ExitCode : Type 0 where
  exit_success exit_failure : ExitCode

-- The second attempt to load, after an error of the first one. An exception ends both.
abbrev retried : Loaded AppConfig → Loaded AppConfig → Loaded AppConfig
retried (loaded cfg) second = loaded cfg
retried (refused e) second = second
retried thrown second = thrown

-- What `main` comes to: its exit code, with the server that was stopped, or a server that serves on,
-- in the call of `start` that blocks until a signal comes.
pub data MainState : Type 0 where
  exited : ExitCode → Option Server.Server → MainState
  serving : Server.Server → MainState

-- The server that was made, for whether one of the two signals comes, whose handler stops it.
abbrev launch : Bool → Expected AppError Server.Server → MainState
launch signalled (unexpected e) = exited exit_failure none
launch false (value s) = serving (Server.start s)
launch true (value s) = exited exit_success (some (Server.stop (Server.start s)))

module _ {Address : Type 0} (make_address : String → Option Address) (strtol : ℕ → ℕ → ℤ)
    (env_access_key env_secret_key : Option String) where
  abbrev configured : Bool → ℕ → Acceptor → Loaded AppConfig → Option MainState
  configured signalled fuel acceptor (refused e) = some (exited exit_failure none)
  configured signalled fuel acceptor thrown = some (exited exit_failure none)
  configured signalled fuel acceptor (loaded cfg) =
      Option.map (launch signalled) (Server.create make_address fuel cfg acceptor)

  -- The configuration that `main` goes on with, from the files `../config.toml` and `config.toml`.
  unfoldable pub load_first : AppConfig → File → File → Loaded AppConfig
  load_first config parent here =
      retried (load_config strtol env_access_key env_secret_key config parent)
        (load_config strtol env_access_key env_secret_key config here)

  -- `main`, for whether a signal comes; `none` is a server whose making does not end within the fuel.
  unfoldable pub main : Bool → ℕ → AppConfig → Acceptor → File → File → Option MainState
  unfolding load_first
  main signalled fuel config acceptor parent here =
      configured signalled fuel acceptor (load_first config parent here)

  -- Where there is no `../config.toml`, `main` does not read `config.toml`: it goes on with the
  -- built-in configuration, whatever stands there.
  main_absent :
      (signalled : Bool) (fuel : ℕ) (config : AppConfig) (acceptor : Acceptor) (here : File)
      → main signalled fuel config acceptor absent here
        ≡ configured signalled fuel acceptor (loaded config)
  unfolding main load_config
  main_absent signalled fuel config acceptor here = refl
