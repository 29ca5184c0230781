-- ===== src/Http/HttpSession/Answers.antt =====
-- src/network/http/HttpSession.cpp over src/network/http/Router.cpp: which answers reach the peer.
use Prim.Native.String.{String}
use hermes_flow_server.Common.{
  ◌≡◌, refl, ap, ◌∙◌, Bool, true, false, not, drop, Option, some, List, [], ◌∷◌, if◌then◌else◌,
}
use hermes_flow_server.Common.Expected.{value}
use hermes_flow_server.Sessions.{SessionType}
use hermes_flow_server.Graph.{Graph}
use hermes_flow_server.Graph.Parse.{FlowJson, parse_graph}
use hermes_flow_server.Http.Response.{Response, default_response}
use hermes_flow_server.Http.Router.{post, object, Router, Exchange, route_query}
use hermes_flow_server.Http.Router.Routes.{Endpoint, endpoint_of}
use hermes_flow_server.Http.Router.Creation.{Creates, HasVector, route_query_created}
use hermes_flow_server.Http.HttpSession.{
  Turn, Connection, Ending, upgraded, is_options_request, do_read_request, do_build_response,
  handle_websocket_upgrade, turn, do_session, process_single_request,
}

-- The exchange that the router is called with.
abbrev pub upgrade_exchange : Router → Exchange
upgrade_exchange router = record { router = router; res = default_response }

abbrev pub request_exchange : Turn → Router → Exchange
request_exchange t router = record {
  router = router;
  res = record default_response { version = t.request.version; keep_alive = t.request.keep_alive };
}

-- One turn that is answered and keeps the connection.
answered_turn :
    (t : Turn) (ts : List Turn) (router : Router)
    → do_read_request t ≡ value true
    → t.request.is_upgrade ≡ false
    → t.is_written ≡ true
    → do_session (t ∷ ts) router ≡ (
        let x = do_build_response t router in
        let rest = do_session ts x.router in record rest { responses = x.res ∷ rest.responses })
unfolding do_session
answered_turn t ts router read up written =
    let x = do_build_response t router in
    let rest = do_session ts x.router in
    let answered : Connection = record rest { responses = x.res ∷ rest.responses } in
    ap (λ r. turn r t router (do_session ts)) read
    ∙ ap
        (λ b.
          if◌then◌else◌ {A = Connection} b
            (record {
              responses = [];
              router = handle_websocket_upgrade t router;
              ending = upgraded;
            })
            (process_single_request true t x (do_session ts)))
        up
    ∙ ap
        (λ b.
          if◌then◌else◌ {A = Connection} b answered
            (record { responses = []; router = x.router; ending = Ending.write_failed }))
        written

routed : Turn → Router → Exchange
routed t router = route_query t.outside t.request (request_exchange t router)

post-routed :
    (t : Turn) (router : Router)
    → t.request.method ≡ post
    → do_build_response t router ≡ routed t router
unfolding do_build_response is_options_request routed
post-routed t router m = simp (m) refl

abbrev pub closes_first : List Response → Bool
closes_first [] = false
closes_first (res ∷ rest) = not res.keep_alive

-- A request over a connection that is to be kept, by which a session without WebRTC is created, is
-- answered that the connection closes; but it stays open, and the requests after it are answered
-- on it.
pub do_session_closing_answer :
    (t : Turn) (ts : List Turn) (router : Router) (path : String) (e : Endpoint) (s : SessionType)
    (b : Bool) (flow : Option FlowJson) (g : Graph)
    → Creates e s b
    → HasVector b router.active
    → t.request.path ≡ some path
    → endpoint_of path ≡ some e
    → t.request.method ≡ post
    → t.request.body ≡ object flow
    → parse_graph flow ≡ value g
    → do_read_request t ≡ value true
    → t.request.is_upgrade ≡ false
    → t.is_written ≡ true
    → let c = do_session (t ∷ ts) router in
      (closes_first c.responses ≡ true)
      × (drop 1 c.responses ≡ (
          let x = route_query t.outside t.request (request_exchange t router) in
          let rest = do_session ts x.router in rest.responses))
unfolding routed
do_session_closing_answer t ts router path e s b flow g c v at found m body p read up written =
    let one = answered_turn t ts router read up written in
    let x = post-routed t router m in
    let created =
      route_query_created t.outside t.request path e s b flow g (request_exchange t router)
        t.outside.new_id c v at found m body p in
    (
      ap (λ d. closes_first d.responses) one ∙ ap (λ y. not y.res.keep_alive) x ∙ ap not created.2,
      ap (λ d. drop 1 d.responses) one
          ∙ ap (λ y. let rest = do_session ts y.router in rest.responses) x,
    )
