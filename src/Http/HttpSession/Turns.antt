-- ===== src/Http/HttpSession/Turns.antt =====
-- src/network/http/HttpSession.cpp over src/network/http/Router.cpp: what a connection does to the
-- sessions, and when it ends.
use Prim.Native.String.{String}
use hermes_flow_server.Common.{
  ◌≡◌, refl, sym, ap, ◌∙◌, Bool, List, [], ◌∷◌, ◌++◌, if◌then◌else◌, Bool-cases, inl, inr,
  if-related,
}
use hermes_flow_server.Common.Expected.{Expected, value, unexpected}
use hermes_flow_server.Sessions.{ActiveSessions, Op, step, run}
use hermes_flow_server.Http.Router.{Router}
use hermes_flow_server.Http.Router.Errors.{operations, route_query-run}
use hermes_flow_server.Http.HttpSession.{
  Turn, Connection, is_options_request, do_read_request, do_build_response,
  handle_websocket_upgrade, turn, do_session,
}

run-append : (a : ActiveSessions) (os ps : List Op) → run a (os ++ ps) ≡ run (run a os) ps
unfolding run
run-append a [] ps = refl
run-append a (o ∷ os) ps = run-append (step a o) os ps

-- The operations of a request that was read: of none for OPTIONS, unless it asks for an upgrade.
abbrev pub answered_operations : Turn → List Op
answered_operations t =
    if is_options_request t.request then [] else operations t.outside t.request t.request.path

abbrev pub turn_operations : Expected String Bool → Turn → List Op → List Op
turn_operations (unexpected e) t rest = []
turn_operations (value keep_alive) t rest =
    if t.request.is_upgrade
    then operations t.outside t.request t.request.path
    else answered_operations t ++ (if t.is_written then (if keep_alive then rest else []) else [])

-- The operations on the sessions that a connection asks for.
unfoldable pub session_operations : List Turn → List Op
session_operations [] = []
session_operations (t ∷ ts) = turn_operations (do_read_request t) t (session_operations ts)

build_response-run :
    (t : Turn) (router : Router)
    → (do_build_response t router).router.active ≡ run router.active (answered_operations t)
unfolding do_build_response run
build_response-run t router = elim (Bool-cases (is_options_request t.request)) [
  | inl b ↦ rw (b) refl
  | inr b ↦ rw (b) (route_query-run t.outside t.request _).0
]

upgrade-run :
    (t : Turn) (router : Router)
    → (handle_websocket_upgrade t router).active
      ≡ run router.active (operations t.outside t.request t.request.path)
unfolding handle_websocket_upgrade
upgrade-run t router = (route_query-run t.outside t.request _).0

run-nil : (a : ActiveSessions) → a ≡ run a []
unfolding run
run-nil a = refl

turn-run :
    (r : Expected String Bool) (t : Turn) (router : Router) (rest : Router → Connection)
    (os : List Op)
    → ((r' : Router) → (rest r').router.active ≡ run r'.active os)
    → (turn r t router rest).router.active ≡ run router.active (turn_operations r t os)
turn-run (unexpected e) t router rest os h = run-nil router.active
turn-run (value k) t router rest os h =
    let answered = do_build_response t router in
    if-related Leaves t.request.is_upgrade _ _ _ _ (upgrade-run t router) (
      if-related
        (λ (c : Connection) (ps : List Op). c.router.active ≡ run answered.router.active ps)
        t.is_written _ _ _ _
        (if-related
          (λ (c : Connection) (ps : List Op). c.router.active ≡ run answered.router.active ps) k _ _
          _ _ (h answered.router) (run-nil answered.router.active))
        (run-nil answered.router.active)
      ∙ ap (λ a. run a (if t.is_written then (if k then os else []) else []))
          (build_response-run t router)
      ∙ sym (run-append router.active (answered_operations t) _))
  where
    Leaves : Connection → List Op → Type 0
    Leaves c ps = c.router.active ≡ run router.active ps

-- Whatever comes over a connection, the sessions after it are what the operations that its requests
-- ask for make of them, in their order: none after the first request that cannot be read, asks
-- for an upgrade, is not answered, or does not keep the connection.
pub do_session-run :
    (ts : List Turn) (router : Router)
    → (do_session ts router).router.active ≡ run router.active (session_operations ts)
unfolding do_session session_operations
do_session-run [] router = run-nil router.active
do_session-run (t ∷ ts) router =
    turn-run (do_read_request t) t router (do_session ts) (session_operations ts)
      (do_session-run ts)
