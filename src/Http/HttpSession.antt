-- ===== src/Http/HttpSession.antt =====
-- src/network/http/HttpSession.cpp: the coroutine that reads requests from one connection and answers
-- them. What the connection gives to it is a list, one entry for each turn of its loop; at the end
-- of the list the peer is silent, and the timeout of the stream, which closes it, ends the read with
-- an error.
pub mod Turns
pub mod Answers
use Prim.Native.String.{String, ◌++◌ as ◌<>◌}
use hermes_flow_server.Common.{
  ℕ, Bool, true, false, ◌||◌, Option, none, some, List, [], ◌∷◌, if◌then◌else◌,
}
use hermes_flow_server.Common.Expected.{Expected, value, unexpected}
use hermes_flow_server.Types.{AppError, logic_error}
use hermes_flow_server.Http.Response.{
  Response, bad_request, default_response, build_error_response, build_options_response,
}
use hermes_flow_server.Http.Router.{
  Request, Router, Exchange, Outside, options, same_verb, route_query,
}

-- The error of `shutdown`: none, `not_connected`, or another.
pub data Shutdown : Type 0 where
  done not_connected failed : Shutdown

-- One turn: the error of reading a header, the request, the error of reading the rest, and whether
-- the response is written.
pub record Turn : Type 0 where
  pub header_error : Option String
  pub request : Request
  pub body_error : Option String
  pub is_written : Bool
  pub shutdown : Shutdown
  pub outside : Outside

-- How the coroutine ended, and in the end of a graceful close whether the socket was closed by it.
pub data Ending : Type 0 where
  refused upgraded write_failed : Ending
  closed : Bool → Ending

-- The connection: the responses that were written, in their order, the router, and the
-- ending.
pub record Connection : Type 0 where
  pub responses : List Response
  pub router : Router
  pub ending : Ending

-- `HttpSession::create`, for whether there is a router.
unfoldable pub create : Bool → Expected AppError Unit
create has_router = if has_router then value tt else unexpected logic_error

unfoldable pub is_options_request : Request → Bool
is_options_request req = same_verb req.method options

-- `do_read_request`: the error's message, or whether to keep the connection.
unfoldable pub do_read_request : Turn → Expected String Bool
unfolding is_options_request
do_read_request t = elim t.header_error [
  | some e ↦ unexpected e
  | none ↦
      if is_options_request t.request
      then value t.request.keep_alive
      else elim t.body_error [ some e ↦ unexpected e | none ↦ value t.request.keep_alive ]
]

unfoldable pub handle_bad_request : String → Turn → Response
handle_bad_request error_msg t =
    build_error_response error_msg t.request.version false bad_request default_response

-- The response, and the router after it.
unfoldable pub do_build_response : Turn → Router → Exchange
unfolding is_options_request
do_build_response t router =
    if is_options_request t.request
    then record {
      router = router;
      res = build_options_response t.request.version t.request.keep_alive default_response;
    }
    else route_query t.outside t.request (record {
      router = router;
      res = record default_response {
        version = t.request.version;
        keep_alive = t.request.keep_alive;
      };
    })

-- The router, after a request that asks for an upgrade; the response that it fills is dropped.
unfoldable pub handle_websocket_upgrade : Turn → Router → Router
handle_websocket_upgrade t router =
    let x = route_query t.outside t.request (record { router = router; res = default_response }) in
    x.router

-- `do_graceful_close`: whether it closes the socket.
abbrev pub do_graceful_close : Shutdown → Bool
do_graceful_close done = true
do_graceful_close not_connected = true
do_graceful_close failed = false

abbrev pub ended : List Response → Router → Ending → Connection
ended responses router ending = record { responses = responses; router = router; ending = ending }

abbrev pub after : Response → Connection → Connection
after res c = record c { responses = res ∷ c.responses }

-- `process_single_request`, and what follows it in the loop.
abbrev pub process_single_request : Bool → Turn → Exchange → (Router → Connection) → Connection
process_single_request keep_alive t x rest =
    if t.is_written
    then after x.res (
        if keep_alive
        then rest x.router
        else ended [] x.router (closed (do_graceful_close t.shutdown)))
    else ended [] x.router write_failed

abbrev pub turn : Expected String Bool → Turn → Router → (Router → Connection) → Connection
turn (unexpected e) t router rest =
    ended (if t.is_written then handle_bad_request ("Invalid Request: " <> e) t ∷ [] else []) router
      refused
turn (value keep_alive) t router rest =
    if t.request.is_upgrade
    then ended [] (handle_websocket_upgrade t router) upgraded
    else process_single_request keep_alive t (do_build_response t router) rest

-- The loop.
unfoldable pub do_session : List Turn → Router → Connection
unfolding do_read_request
do_session [] router = ended [] router refused
do_session (t ∷ ts) router = turn (do_read_request t) t router (do_session ts)
