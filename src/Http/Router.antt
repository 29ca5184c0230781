-- ===== src/Http/Router.antt =====
-- src/network/http/Router.cpp: the routes, and what each handler asks of the sessions.
pub mod Routes
pub mod Creation
pub mod Errors
pub mod Failing
pub mod Replies
use Prim.Native.String.{String, ◌++◌ as ◌<>◌}
use text.Mathlib.Text.{starts_with}
use hermes_flow_server.Common.{
  ℕ, ◌+◌, ◌%◌, ◌^◌, Bool, true, false, Option, none, some, List, [], ◌∷◌, ◌++◌, map, if◌then◌else◌,
}
use hermes_flow_server.Common.Expected.{Expected, value, unexpected}
use hermes_flow_server.Types.{
  AppError, success, config_error, parse_error, network_error, file_system_error, logic_error,
  critical,
}
use hermes_flow_server.Session.{Session}
use hermes_flow_server.Graph.{Graph}
use hermes_flow_server.Graph.Parse.{FlowJson, parse_graph}
use hermes_flow_server.Sessions.{
  ActiveSessions, Failure, failed, thrown, SessionType, standard, standart_encrypted, web_rtc,
  SessionOpStatus, session_not_found, websocket_not_found, create_session,
  create_and_run_websocket_session, remove_session, pause_session, resume_session, size,
  get_active_websockets_count, get_available_webrtc_ports_count, get_total_sessions_created,
}
use hermes_flow_server.Http.Response.{
  Status, bad_request, not_found, method_not_allowed, conflict, internal_server_error, bad_gateway,
  MetricLine, help, type, sample, session_sample, metrics, Response, build_success_response,
  build_error_response, build_plaintext_response,
}

-- `beast::http::verb`, of which the code names three.
pub data Verb : Type 0 where
  get post options : Verb
  other_verb : String → Verb

-- `beast::http::to_string`
abbrev pub to_string : Verb → String
to_string get = "GET"
to_string post = "POST"
to_string options = "OPTIONS"
to_string (other_verb s) = s

abbrev pub same_verb : Verb → Verb → Bool
same_verb get get = true
same_verb post post = true
same_verb options options = true
same_verb _ _ = false

-- What `json::parse` makes of the body.
pub data Parsed : Type 0 where
  invalid not_an_object : Parsed
  -- an object, with what stands under "flow" in it
  object : Option FlowJson → Parsed

-- A request as Boost gives it: the target's path and its parameter "id", where the target is a URL.
pub record Request : Type 0 where
  pub method : Verb
  pub path : Option String
  pub id : Option ℕ
  pub version : ℕ
  pub keep_alive : Bool
  pub is_upgrade : Bool
  pub body : Parsed

pub record RouteError : Type 0 where
  pub code : Status
  pub message : String

pub record Router : Type 0 where
  pub active : ActiveSessions
  pub http_requests_total : ℕ

-- The router, with the response that a handler fills.
pub record Exchange : Type 0 where
  pub router : Router
  pub res : Response

abbrev pub Handled : Type 0
Handled = Expected RouteError Unit × Exchange

abbrev pub map_app_error : AppError → Status
map_app_error parse_error = bad_request
map_app_error logic_error = conflict
map_app_error config_error = internal_server_error
map_app_error network_error = bad_gateway
map_app_error file_system_error = internal_server_error
map_app_error success = internal_server_error
map_app_error critical = internal_server_error

abbrev pub route_error : Status → String → RouteError
route_error code message = record { code = code; message = message }

abbrev pub extract_session_id : Request → Expected RouteError ℕ
extract_session_id req = elim req.id [
  | none ↦ unexpected (route_error bad_request "Missing query parameter: id")
  | some id ↦ value id
]

abbrev pub with_active : ActiveSessions → Exchange → Exchange
with_active a x = record x { router = record x.router { active = a } }

-- `build_success_response(res, id, req.version())`, with the default of its last parameter.
abbrev pub succeed : ℕ → Request → Exchange → Exchange
succeed id req x = record x { res = build_success_response id req.version false x.res }

-- `Session::create` asks of a graph that was parsed whether it has a start node.
abbrev pub has_start : Graph → Bool
has_start g = elim g.start_node [ none ↦ false | some i ↦ true ]

abbrev pub graph_result : Expected AppError Graph → Expected AppError Bool
graph_result (unexpected e) = unexpected e
graph_result (value g) = value (has_start g)

-- What differs from call to call, and comes from outside: the identifier that the generator gives to
-- a new session, the text of an error of the sessions, the text of an exception of the URL, and the
-- RTP counters of a session.
pub record Outside : Type 0 where
  pub new_id : ℕ
  pub message_of : AppError → String
  pub what : String
  pub rtp_bytes_sent : Session → ℕ
  pub rtp_packets_sent : Session → ℕ

module _ (o : Outside) (req : Request) where
  -- An exception leaves the handler, and `route_query` answers it as it answers an error with this
  -- status and this message.
  abbrev pub created : Expected Failure ℕ × ActiveSessions → Exchange → Handled
  created (unexpected (failed e), a) x =
      (unexpected (route_error (map_app_error e) (o.message_of e)), with_active a x)
  created (unexpected thrown, a) x = (
    unexpected (
        route_error internal_server_error
          ("Internal Error: " <> "AES-128 requires 16-byte key and IV")),
    with_active a x,
  )
  created (value id, a) x = (value tt, succeed id req (with_active a x))

  abbrev pub process_parsed : Parsed → SessionType → Exchange → Handled
  process_parsed invalid t x = (unexpected (route_error bad_request "Invalid JSON format"), x)
  process_parsed not_an_object t x =
      (unexpected (route_error bad_request "JSON root must be an object"), x)
  process_parsed (object flow) t x =
      created (create_session o.new_id (graph_result (parse_graph flow)) t x.router.active) x

  unfoldable pub process_session_request : SessionType → Exchange → Handled
  process_session_request t x = process_parsed req.body t x

  unfoldable pub handle_transmit : Exchange → Handled
  unfolding process_session_request
  handle_transmit x = process_session_request standard x

  unfoldable pub handle_secure_transmit : Exchange → Handled
  unfolding process_session_request
  handle_secure_transmit x = process_session_request standart_encrypted x

  unfoldable pub handle_webrtc_request : Exchange → Handled
  unfolding process_session_request
  handle_webrtc_request x = process_session_request web_rtc x

  -- The `switch` of the three handlers below.
  abbrev pub operated : ℕ → SessionOpStatus → Exchange → Handled
  operated id SessionOpStatus.success x = (value tt, succeed id req x)
  operated id websocket_not_found x = (value tt, succeed id req x)
  operated id session_not_found x = (unexpected (route_error not_found "Session ID not found"), x)

  abbrev pub with_id : Expected RouteError ℕ → (ℕ → Exchange → Handled) → Exchange → Handled
  with_id (unexpected e) f x = (unexpected e, x)
  with_id (value id) f x = f id x

  abbrev pub stop_with : ℕ → Exchange → Handled
  stop_with id x =
      let (status, stopped, a) = remove_session id x.router.active in
      operated id status (with_active a x)

  unfoldable pub handle_stop : Exchange → Handled
  handle_stop x = with_id (extract_session_id req) stop_with x

  abbrev pub pause_with : ℕ → Exchange → Handled
  pause_with id x =
      let (status, a) = pause_session id x.router.active in operated id status (with_active a x)

  unfoldable pub handle_pause : Exchange → Handled
  handle_pause x = with_id (extract_session_id req) pause_with x

  abbrev pub resume_with : ℕ → Exchange → Handled
  resume_with id x =
      let (status, a) = resume_session id x.router.active in operated id status (with_active a x)

  unfoldable pub handle_resume : Exchange → Handled
  handle_resume x = with_id (extract_session_id req) resume_with x

  abbrev pub attached : Expected AppError Unit × ActiveSessions → Exchange → Handled
  attached (unexpected e, a) x =
      (unexpected (route_error (map_app_error e) (o.message_of e)), with_active a x)
  attached (value u, a) x = (value tt, with_active a x)

  abbrev pub attach_with : ℕ → Exchange → Handled
  attach_with id x = attached (create_and_run_websocket_session id x.router.active) x

  unfoldable pub handle_websocket_request : Exchange → Handled
  handle_websocket_request x =
      if req.is_upgrade
      then with_id (extract_session_id req) attach_with x
      else (unexpected (route_error bad_request "Request is not a WebSocket upgrade"), x)

  -- `get_all_session_rtp_stats`, in the shape of its two lists of lines.
  abbrev pub rtp_lines : List (ℕ × Session) → List MetricLine
  rtp_lines [] = []
  rtp_lines sessions =
      help "hermes_rtp_bytes_sent_total" "Total RTP bytes sent by a session."
      ∷ type "hermes_rtp_bytes_sent_total" "counter"
      ∷ (map (λ s. session_sample "hermes_rtp_bytes_sent_total" s.0 (o.rtp_bytes_sent s.1)) sessions
          ++ (help "hermes_rtp_packets_sent_total" "Total RTP packets sent by a session."
              ∷ type "hermes_rtp_packets_sent_total" "counter"
              ∷ map
                  (λ s. session_sample "hermes_rtp_packets_sent_total" s.0 (o.rtp_packets_sent s.1))
                  sessions))

  abbrev pub metric_lines : Router → List MetricLine
  metric_lines r =
      help "hermes_http_requests_total" "Total number of HTTP requests processed."
      ∷ type "hermes_http_requests_total" "counter"
      ∷ sample "hermes_http_requests_total" r.http_requests_total
      ∷ help "hermes_total_sessions_created_total" "Total number of sessions instantiated."
      ∷ type "hermes_total_sessions_created_total" "counter"
      ∷ sample "hermes_total_sessions_created_total" (get_total_sessions_created r.active)
      ∷ help "hermes_active_sessions_total" "Number of currently active audio sessions."
      ∷ type "hermes_active_sessions_total" "gauge"
      ∷ sample "hermes_active_sessions_total" (size r.active)
      ∷ help "hermes_active_websockets_total" "Number of currently connected WebSockets."
      ∷ type "hermes_active_websockets_total" "gauge"
      ∷ sample "hermes_active_websockets_total" (get_active_websockets_count r.active)
      ∷ help "hermes_available_webrtc_ports" "Number of WebRTC UDP ports currently available."
      ∷ type "hermes_available_webrtc_ports" "gauge"
      ∷ sample "hermes_available_webrtc_ports" (get_available_webrtc_ports_count r.active)
      ∷ rtp_lines r.active.sessions

  unfoldable pub handle_metrics : Exchange → Handled
  handle_metrics x = (
    value tt,
    record x {
      res =
          build_plaintext_response (metrics (metric_lines x.router)) req.version req.keep_alive
            x.res;
    },
  )

  unfoldable pub match_route :
      String → String → Verb → (Exchange → Handled) → Exchange → Option Handled
  match_route path prefix method handler x =
      if starts_with path prefix
      then some (
          if same_verb req.method method then handler x else (
            unexpected (route_error method_not_allowed ("Method must be " <> to_string method)),
            x,
          ))
      else none

  abbrev pub or_try : Option Handled → Handled → Handled
  or_try (some h) rest = h
  or_try none rest = rest

  unfoldable pub try_routes : String → Exchange → Handled
  unfolding match_route handle_transmit handle_secure_transmit handle_webrtc_request handle_stop
      handle_pause handle_resume handle_websocket_request handle_metrics
  try_routes path x = or_try (match_route path "/transmit/" post handle_transmit x) (
      or_try (match_route path "/secure_transmit/" post handle_secure_transmit x) (
        or_try (match_route path "/preview/" post handle_webrtc_request x) (
          or_try (match_route path "/connect/" get handle_websocket_request x) (
            or_try (match_route path "/stop/" post handle_stop x) (
              or_try (match_route path "/pause/" post handle_pause x) (
                or_try (match_route path "/resume/" post handle_resume x) (
                  or_try (match_route path "/metrics" get handle_metrics x)
                    (unexpected (route_error not_found "Route not found"), x))))))))

  abbrev pub counted : Exchange → Exchange
  counted x = record x {
    router = record x.router { http_requests_total = (x.router.http_requests_total + 1) % 2 ^ 64 };
  }

  abbrev pub answer : Handled → Exchange
  answer (value u, x) = x
  answer (unexpected e, x) = record x {
    res = build_error_response e.message req.version req.keep_alive e.code x.res;
  }

  abbrev pub route_path : Option String → Exchange → Exchange
  route_path none x = record x {
    res =
        build_error_response ("Internal Error: " <> o.what) req.version req.keep_alive
          internal_server_error x.res;
  }
  route_path (some path) x = answer (try_routes path x)

  -- A target that is no URL makes `url_view` throw. Of the exceptions on the way through a handler, the
  -- one of the encryption is in `created`, and others are left out.
  unfoldable pub route_query : Exchange → Exchange
  unfolding try_routes
  route_query x = route_path req.path (counted x)
