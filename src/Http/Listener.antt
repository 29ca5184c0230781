-- ===== src/Http/Listener.antt =====
-- src/network/http/Listener.cpp: opening the acceptor, and the loop that accepts connections.
use hermes_flow_server.Common.{ℕ, Bool, List, [], ◌∷◌, if◌then◌else◌}
use hermes_flow_server.Common.Expected.{Expected, value, unexpected, ◌>>=◌}
use hermes_flow_server.Types.{AppError, network_error}
use hermes_flow_server.Infra.IoContextPool.{IoContextPool, get_io_context}

-- The errors of the four calls on the acceptor.
pub record Acceptor : Type 0 where
  pub open_error : Bool
  pub set_option_error : Bool
  pub bind_error : Bool
  pub listen_error : Bool

abbrev pub run_step : Bool → Expected AppError Unit
run_step is_error = if is_error then unexpected network_error else value tt

-- `Listener::create`
unfoldable pub create : Acceptor → Expected AppError Unit
create a = do
  _ ← run_step a.open_error
  _ ← run_step a.set_option_error
  _ ← run_step a.bind_error
  run_step a.listen_error

-- What `async_accept` gives: the abort, another error, or a socket.
pub data Accept : Type 0 where
  aborted failed accepted : Accept

-- `do_accept`: the contexts of the sessions that were begun, in their order, and the pool.
unfoldable pub do_accept : List Accept → IoContextPool → List ℕ × IoContextPool
unfolding get_io_context
do_accept [] pool = ([], pool)
do_accept (aborted ∷ accepts) pool = ([], (get_io_context pool).1)
do_accept (failed ∷ accepts) pool = do_accept accepts (get_io_context pool).1
do_accept (accepted ∷ accepts) pool =
    let (context, pool') = get_io_context pool in
    let (contexts, pool'') = do_accept accepts pool' in (context ∷ contexts, pool'')
