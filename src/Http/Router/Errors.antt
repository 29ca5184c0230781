-- ===== src/Http/Router/Errors.antt =====
-- src/network/http/Router.cpp over src/core/session/ActiveSessions.cpp: what a request does to the
-- sessions.
use Prim.Native.String.{String}
use hermes_flow_server.Common.{
  ℕ, ◌+◌, ◌%◌, ◌^◌, ◌≡◌, refl, ap, ◌∙◌, Bool, true, false, Option, none, some, List, [], ◌∷◌,
  if◌then◌else◌, inl, inr, Bool-cases,
}
use hermes_flow_server.Common.Expected.{Expected, value, unexpected}
use hermes_flow_server.Types.{AppError}
use hermes_flow_server.Graph.Parse.{parse_graph}
use hermes_flow_server.Sessions.{
  ActiveSessions, Failure, failed, thrown, SessionType, standard, standart_encrypted, web_rtc,
  SessionOpStatus, Op, create_op, websocket_op, remove_op, pause_op, resume_op, step, run,
}
use hermes_flow_server.Http.Router.{
  same_verb, Parsed, invalid, not_an_object, object, Request, Exchange, Handled, Outside,
  extract_session_id, process_session_request, process_parsed, created, handle_transmit,
  handle_secure_transmit, handle_webrtc_request, handle_websocket_request, handle_stop,
  handle_pause, handle_resume, handle_metrics, try_routes, graph_result, operated, with_id,
  stop_with, pause_with, resume_with, attached, attach_with, counted, answer, route_path,
  route_query,
}
use hermes_flow_server.Http.Router.Routes.{
  Endpoint, transmit, secure_transmit, preview, connect, stop, pause, resume, metrics, method_of,
  endpoint_of, dispatch, handler_of, try_routes-dispatch,
}

module _ (o : Outside) (req : Request) where
  -- The operations on the sessions that a request asks for, by its endpoint.
  abbrev pub creation : Parsed → SessionType → List Op
  creation invalid t = []
  creation not_an_object t = []
  creation (object flow) t = create_op o.new_id (graph_result (parse_graph flow)) t ∷ []

  abbrev pub on_id : Option ℕ → (ℕ → Op) → List Op
  on_id none f = []
  on_id (some id) f = f id ∷ []

  abbrev pub operations_at : Endpoint → List Op
  operations_at transmit = creation req.body standard
  operations_at secure_transmit = creation req.body standart_encrypted
  operations_at preview = creation req.body web_rtc
  operations_at connect = if req.is_upgrade then on_id req.id websocket_op else []
  operations_at stop = on_id req.id remove_op
  operations_at pause = on_id req.id pause_op
  operations_at resume = on_id req.id resume_op
  operations_at metrics = []

  abbrev pub operations_of : Option Endpoint → List Op
  operations_of none = []
  operations_of (some e) = if same_verb req.method (method_of e) then operations_at e else []

  abbrev pub operations : Option String → List Op
  operations none = []
  operations (some path) = operations_of (endpoint_of path)

  -- What a handler leaves of the sessions, given what they were.
  abbrev Performs : List Op → (Exchange → Handled) → Type 0
  Performs os f =
      (x : Exchange)
      → ((f x).1.router.active ≡ run x.router.active os)
        × ((f x).1.router.http_requests_total ≡ x.router.http_requests_total)

  created-same :
      (r : Expected Failure ℕ × ActiveSessions) (x : Exchange)
      → ((created o req r x).1.router.active ≡ r.1)
        × ((created o req r x).1.router.http_requests_total ≡ x.router.http_requests_total)
  created-same (value id, a) x = (refl, refl)
  created-same (unexpected (failed e), a) x = (refl, refl)
  created-same (unexpected thrown, a) x = (refl, refl)

  process_parsed-Performs :
      (p : Parsed) (t : SessionType) → Performs (creation p t) (process_parsed o req p t)
  unfolding run step
  process_parsed-Performs invalid t x = (refl, refl)
  process_parsed-Performs not_an_object t x = (refl, refl)
  process_parsed-Performs (object flow) t x = created-same _ x

  operated-same :
      (id : ℕ) (s : SessionOpStatus) (x : Exchange) → (operated o req id s x).1.router ≡ x.router
  operated-same id SessionOpStatus.success x = refl
  operated-same id SessionOpStatus.session_not_found x = refl
  operated-same id SessionOpStatus.websocket_not_found x = refl

  attached-same :
      (r : Expected AppError Unit × ActiveSessions) (x : Exchange)
      → ((attached o req r x).1.router.active ≡ r.1)
        × ((attached o req r x).1.router.http_requests_total ≡ x.router.http_requests_total)
  attached-same (value u, a) x = (refl, refl)
  attached-same (unexpected e, a) x = (refl, refl)

  on_id-Performs :
      (id : Option ℕ) (f : ℕ → Op) (h : ℕ → Exchange → Handled)
      → ((i : ℕ) → Performs (f i ∷ []) (h i))
      → Performs (on_id id f) (with_id o req (extract_session_id (record req { id = id })) h)
  unfolding run
  on_id-Performs none f h p x = (refl, refl)
  on_id-Performs (some i) f h p x = p i x

  connect-Performs :
      (b : Bool)
      → req.is_upgrade ≡ b
      → Performs (if b then on_id req.id websocket_op else []) (handle_websocket_request o req)
  unfolding handle_websocket_request run step
  connect-Performs true e x =
      rw (e) (on_id-Performs req.id websocket_op (attach_with o req) (λ i y. attached-same _ y) x)
  connect-Performs false e x = rw (e) (refl, refl)

  handler_of-Performs : (e : Endpoint) → Performs (operations_at e) (handler_of o req e)
  unfolding handle_transmit handle_secure_transmit handle_webrtc_request process_session_request
      handle_stop handle_pause handle_resume handle_metrics run step
  handler_of-Performs transmit x = process_parsed-Performs req.body standard x
  handler_of-Performs secure_transmit x = process_parsed-Performs req.body standart_encrypted x
  handler_of-Performs preview x = process_parsed-Performs req.body web_rtc x
  handler_of-Performs connect x = connect-Performs req.is_upgrade refl x
  handler_of-Performs stop x =
      on_id-Performs req.id remove_op (stop_with o req)
        (λ i y.
          let e = operated-same i _ _ in (ap (λ r. r.active) e, ap (λ r. r.http_requests_total) e))
        x
  handler_of-Performs pause x =
      on_id-Performs req.id pause_op (pause_with o req)
        (λ i y.
          let e = operated-same i _ _ in (ap (λ r. r.active) e, ap (λ r. r.http_requests_total) e))
        x
  handler_of-Performs resume x =
      on_id-Performs req.id resume_op (resume_with o req)
        (λ i y.
          let e = operated-same i _ _ in (ap (λ r. r.active) e, ap (λ r. r.http_requests_total) e))
        x
  handler_of-Performs metrics x = (refl, refl)

  dispatch-Performs : (e : Option Endpoint) → Performs (operations_of e) (dispatch o req e)
  unfolding run
  dispatch-Performs none x = (refl, refl)
  dispatch-Performs (some e) x = elim (Bool-cases (same_verb req.method (method_of e))) [
    | inl b ↦ rw (b) (handler_of-Performs e x)
    | inr b ↦ rw (b) (refl, refl)
  ]

  answer-same : (h : Handled) → (answer o req h).router ≡ h.1.router
  answer-same (value u, x) = refl
  answer-same (unexpected e, x) = refl

  -- The sessions after a request are what the operations that it asks for make of them: none or
  -- one, by its path, method, body and parameter; and the counter of the requests is one higher,
  -- modulo 2^64.
  pub route_query-run :
      (x : Exchange)
      → ((route_query o req x).router.active ≡ run x.router.active (operations req.path))
        × ((route_query o req x).router.http_requests_total
            ≡ (x.router.http_requests_total + 1) % 2 ^ 64)
  unfolding route_query
  route_query-run x = performed req.path
    where
      performed :
          (path : Option String)
          → ((route_path o req path (counted o req x)).router.active
              ≡ run x.router.active (operations path))
            × ((route_path o req path (counted o req x)).router.http_requests_total
                ≡ (x.router.http_requests_total + 1) % 2 ^ 64)
      performed none = (unfold run in refl, refl)
      performed (some path) =
          let same = answer-same (try_routes o req path (counted o req x)) in
          let by_table = try_routes-dispatch o req path (counted o req x) in
          let (active, total) = dispatch-Performs (endpoint_of path) (counted o req x) in
          (
            ap (λ r. r.active) same ∙ ap (λ h. h.1.router.active) by_table ∙ active,
            ap (λ r. r.http_requests_total) same
                ∙ ap (λ h. h.1.router.http_requests_total) by_table
                ∙ total,
          )
