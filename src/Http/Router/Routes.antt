-- ===== src/Http/Router/Routes.antt =====
-- src/network/http/Router.cpp: the chain of routes, and the table of its endpoints.
use Prim.Native.String.{String, ◌++◌ as ◌<>◌}
use text.Mathlib.Text.{starts_with}
use hermes_flow_server.Common.{
  ◌≡◌, refl, Option, none, some, List, [], ◌∷◌, if◌then◌else◌, Bool-cases, inl, inr,
}
use hermes_flow_server.Common.Expected.{unexpected}
use hermes_flow_server.Http.Response.{not_found, method_not_allowed}
use hermes_flow_server.Http.Router.{
  Verb, get, post, to_string, same_verb, Request, Exchange, Handled, Outside, route_error,
  handle_transmit, handle_secure_transmit, handle_webrtc_request, handle_websocket_request,
  handle_stop, handle_pause, handle_resume, handle_metrics, match_route, or_try, try_routes,
}

-- The endpoints, with the method of each and the beginning of its paths.
pub data Endpoint : Type 0 where
  transmit secure_transmit preview connect stop pause resume metrics : Endpoint

abbrev pub prefix_of : Endpoint → String
prefix_of transmit = "/transmit/"
prefix_of secure_transmit = "/secure_transmit/"
prefix_of preview = "/preview/"
prefix_of connect = "/connect/"
prefix_of stop = "/stop/"
prefix_of pause = "/pause/"
prefix_of resume = "/resume/"
prefix_of metrics = "/metrics"

abbrev pub method_of : Endpoint → Verb
method_of connect = get
method_of metrics = get
method_of _ = post

abbrev pub endpoints : List Endpoint
endpoints = transmit ∷ secure_transmit ∷ preview ∷ connect ∷ stop ∷ pause ∷ resume ∷ metrics ∷ []

-- The first endpoint whose prefix the path has.
unfoldable pub endpoint_among : List Endpoint → String → Option Endpoint
endpoint_among [] path = none
endpoint_among (e ∷ es) path =
    if starts_with path (prefix_of e) then some e else endpoint_among es path

abbrev pub endpoint_of : String → Option Endpoint
endpoint_of path = endpoint_among endpoints path

module _ (o : Outside) (req : Request) where
  abbrev pub handler_of : Endpoint → Exchange → Handled
  handler_of transmit = handle_transmit o req
  handler_of secure_transmit = handle_secure_transmit o req
  handler_of preview = handle_webrtc_request o req
  handler_of connect = handle_websocket_request o req
  handler_of stop = handle_stop o req
  handler_of pause = handle_pause o req
  handler_of resume = handle_resume o req
  handler_of metrics = handle_metrics o req

  -- The answer that the table asks for.
  abbrev pub dispatch : Option Endpoint → Exchange → Handled
  dispatch none x = (unexpected (route_error not_found "Route not found"), x)
  dispatch (some e) x = if same_verb req.method (method_of e) then handler_of e x else (
    unexpected (route_error method_not_allowed ("Method must be " <> to_string (method_of e))),
    x,
  )

  -- The chain over a list of endpoints.
  unfoldable pub try_all : List Endpoint → String → Exchange → Handled
  try_all [] path x = (unexpected (route_error not_found "Route not found"), x)
  try_all (e ∷ es) path x =
      or_try o req (match_route o req path (prefix_of e) (method_of e) (handler_of e) x)
        (try_all es path x)

  try_all-dispatch :
      (es : List Endpoint) (path : String) (x : Exchange)
      → try_all es path x ≡ dispatch (endpoint_among es path) x
  unfolding try_all match_route endpoint_among
  try_all-dispatch [] path x = refl
  try_all-dispatch (e ∷ es) path x = elim (Bool-cases (starts_with path (prefix_of e))) [
    | inl b ↦ rw (b) refl
    | inr b ↦ rw (b) (try_all-dispatch es path x)
  ]

  -- For every path and method, the chain of `match_route` answers as its table does: 404 where no
  -- prefix fits, 405 where the first that fits wants another method, and else by the handler of it.
  pub try_routes-dispatch :
      (path : String) (x : Exchange) → try_routes o req path x ≡ dispatch (endpoint_of path) x
  unfolding try_routes try_all
  try_routes-dispatch path x = try_all-dispatch endpoints path x
