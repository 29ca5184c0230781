-- ===== src/Tests/Http.antt =====
-- Requests, connections and WebSockets at concrete inputs.
use hermes_flow_server.Common.{
  ◌+◌, ◌%◌, ◌^◌, ◌≡◌, ◌≢◌, refl, true, false, none, some, [], ◌∷◌, if◌then◌else◌, ◌==◌,
}
use hermes_flow_server.Common.Expected.{value}
use hermes_flow_server.Session.{Session}
use hermes_flow_server.Session as Playing
use hermes_flow_server.Sessions.{ActiveSessions, standart_encrypted, run, get}
use hermes_flow_server.Graph.{Graph, Node, delay}
use hermes_flow_server.Graph.Parse.{FlowJson, parse_graph, new_node}
use hermes_flow_server.Http.Response.{ok, success_json, default_response}
use hermes_flow_server.Http.Router.{
  Verb, get as get_verb, post, object, Request, Router, Exchange, Outside, route_query, try_routes,
}
use hermes_flow_server.Http.Router.Routes.{
  secure_transmit, endpoint_of, dispatch, try_routes-dispatch,
}
use hermes_flow_server.Http.Router.Errors.{operations, route_query-run}
use hermes_flow_server.Http.Router.Failing.{IsSame}
use hermes_flow_server.Http.Router.Replies.{route_query-failed}
use hermes_flow_server.Http.Router.Creation.{Creates, route_query_created}
use hermes_flow_server.Http.HttpSession.{Turn, Shutdown, do_session}
use hermes_flow_server.Http.HttpSession.Turns.{session_operations, do_session-run}

-- One delay of 50 frames.
abbrev flow : FlowJson
flow = record {
  nodes = some (
      record {
        is_object = true;
        id = some 8;
        has_type = true;
        has_data = true;
        created = value (delay, 50);
      }
      ∷ []);
  start_id = some 8;
  edges = some [];
}

abbrev graph : Graph
graph = record {
  nodes = new_node 8 delay 50 ∷ [];
  node_map = (8, 0) ∷ [];
  start_node = some 0;
  file_nodes = [];
  mixer_nodes = [];
  clients_node = none;
}

flow-graph : parse_graph (some flow) ≡ value graph
unfolding parse_graph hermes_flow_server.Graph.Parse.parse_nodes
    hermes_flow_server.Graph.Parse.add_node hermes_flow_server.Graph.Parse.set_start_node
    hermes_flow_server.Graph.Parse.parse_edges
flow-graph = refl

abbrev registry : ActiveSessions
registry = record {
  next_session_id = 0;
  available_webrtc_ports = 6000 ∷ [];
  sessions = [];
  websocket_sessions = [];
  salt_size = 16;
}

abbrev outside : Outside
outside = record {
  new_id = 1;
  message_of = λ e. "error";
  what = "invalid";
  rtp_bytes_sent = λ s. 0;
  rtp_packets_sent = λ s. 0;
}

abbrev creation : Request
creation = record {
  method = post;
  path = some "/transmit/";
  id = none;
  version = 11;
  keep_alive = true;
  is_upgrade = false;
  body = object (some flow);
}

abbrev router : Router
router = record { active = registry; http_requests_total = 0 }

abbrev exchange : Exchange
exchange = record { router = router; res = default_response }

try_routes-dispatch_example :
    try_routes outside creation "/transmit/" exchange
    ≡ dispatch outside creation (endpoint_of "/transmit/") exchange
try_routes-dispatch_example = try_routes-dispatch outside creation "/transmit/" exchange

route_query-run_example :
    ((route_query outside creation exchange).router.active
      ≡ run registry (operations outside creation (some "/transmit/")))
    × ((route_query outside creation exchange).router.http_requests_total ≡ (0 + 1) % 2 ^ 64)
route_query-run_example = route_query-run outside creation exchange

-- An unknown path.
abbrev unknown : Request
unknown = record creation { path = some "/other/" }

unknown-answer : (route_query outside unknown exchange).res.result ≢ ok
unfolding route_query try_routes hermes_flow_server.Http.Router.match_route
    hermes_flow_server.Http.Response.build_error_response
unknown-answer = cc

route_query-failed_example : IsSame registry (route_query outside unknown exchange).router.active
route_query-failed_example = route_query-failed outside unknown exchange refl unknown-answer

-- The same body for the endpoint that encrypts.
abbrev secured : Request
secured = record creation { path = some "/secure_transmit/" }

secure_transmit_found : endpoint_of "/secure_transmit/" ≡ some secure_transmit
unfolding hermes_flow_server.Http.Router.Routes.endpoint_among
secure_transmit_found = refl

route_query_created_example :
    let y = route_query outside secured exchange in
    (y.res.result ≡ ok)
    × (y.res.body ≡ success_json 1)
    × (y.res.keep_alive ≡ false)
    × (get y.router.active 1
        ≡ (if 1 == 1 then some (Playing.construct false none true) else get registry 1))
route_query_created_example =
    route_query_created outside secured "/secure_transmit/" secure_transmit standart_encrypted true
      (some flow) graph exchange 1 Creates.encrypted refl refl secure_transmit_found refl refl
      flow-graph

abbrev creation_turn : Turn
creation_turn = record {
  header_error = none;
  request = creation;
  body_error = none;
  is_written = true;
  shutdown = Shutdown.done;
  outside = outside;
}

do_session-run_example :
    (do_session (creation_turn ∷ creation_turn ∷ []) router).router.active
    ≡ run registry (session_operations (creation_turn ∷ creation_turn ∷ []))
do_session-run_example = do_session-run (creation_turn ∷ creation_turn ∷ []) router
