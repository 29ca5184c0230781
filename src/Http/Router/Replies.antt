-- ===== src/Http/Router/Replies.antt =====
-- src/network/http/Router.cpp: what the status of an answer says.
use Prim.Native.String.{String}
use hermes_flow_server.Common.{
  ℕ, ◌≡◌, ◌≢◌, refl, sym, ◌∙◌, subst, Bool, true, false, Option, none, some, if◌then◌else◌, inl,
  inr, Bool-cases,
}
use hermes_flow_server.Common.Expected.{Expected, value, unexpected}
use hermes_flow_server.Types.{
  AppError, success, config_error, parse_error, network_error, file_system_error, logic_error,
  critical,
}
use hermes_flow_server.Session
use hermes_flow_server.Session.{Session}
use hermes_flow_server.Graph.Parse.{parse_graph}
use hermes_flow_server.Sessions.{
  ActiveSessions, Failure, failed, thrown, SessionType, standard, standart_encrypted, web_rtc,
  SessionOpStatus, find, create_and_run_websocket_session, remove_session, pause_session,
  resume_session, reclaim, update,
}
use hermes_flow_server.Http.Response.{ok, build_success_response, build_plaintext_response}
use hermes_flow_server.Http.Router.{
  same_verb, Parsed, invalid, not_an_object, object, Request, Exchange, Handled, Outside,
  map_app_error, extract_session_id, process_session_request, process_parsed, created,
  handle_transmit, handle_secure_transmit, handle_webrtc_request, handle_websocket_request,
  handle_stop, handle_pause, handle_resume, handle_metrics, try_routes, graph_result, operated,
  with_id, stop_with, pause_with, resume_with, attached, attach_with, counted, answer, route_path,
  route_query,
}
use hermes_flow_server.Http.Router.Routes.{
  Endpoint, transmit, secure_transmit, preview, connect, stop, pause, resume, metrics, method_of,
  endpoint_of, dispatch, handler_of, try_routes-dispatch,
}
use hermes_flow_server.Http.Router.Failing.{
  IsSame-refl, create_session-Fails, attach-Fails, IsSame, Fails,
}

-- What a handler that was given a response with status 200 leaves: it is still 200, or there is an
-- error, its code is not 200, and the maps are as they were.
abbrev pub Settles : Exchange → Handled → Type 0
Settles x (value u, y) = y.res.result ≡ ok
Settles x (unexpected e, y) = (e.code ≢ ok) × IsSame x.router.active y.router.active

map_app_error-ne-ok : (e : AppError) → map_app_error e ≢ ok
map_app_error-ne-ok success = cc
map_app_error-ne-ok config_error = cc
map_app_error-ne-ok parse_error = cc
map_app_error-ne-ok network_error = cc
map_app_error-ne-ok file_system_error = cc
map_app_error-ne-ok logic_error = cc
map_app_error-ne-ok critical = cc

module _ (o : Outside) (req : Request) where
  created-Settles :
      (a : ActiveSessions) (r : Expected Failure ℕ × ActiveSessions) (x : Exchange)
      → IsSame x.router.active a
      → Fails a r
      → Settles x (created o req r x)
  unfolding build_success_response
  created-Settles a (value id, b) x h f = refl
  created-Settles a (unexpected thrown, b) x h f =
      (cc, record { sessions = f.sessions ∙ h.sessions; websockets = f.websockets ∙ h.websockets })
  created-Settles a (unexpected (failed e), b) x h f = (
    map_app_error-ne-ok e,
    record { sessions = f.sessions ∙ h.sessions; websockets = f.websockets ∙ h.websockets },
  )

  process_parsed-Settles :
      (p : Parsed) (t : SessionType) (x : Exchange) → Settles x (process_parsed o req p t x)
  process_parsed-Settles invalid t x = (cc, IsSame-refl x.router.active)
  process_parsed-Settles not_an_object t x = (cc, IsSame-refl x.router.active)
  process_parsed-Settles (object flow) t x =
      created-Settles _ _ x (record { sessions = refl; websockets = refl })
        (create_session-Fails o.new_id (graph_result (parse_graph flow)) t x.router.active)

  attached-Settles :
      (r : Expected AppError Unit × ActiveSessions) (x : Exchange)
      → x.res.result ≡ ok
      → Fails x.router.active r
      → Settles x (attached o req r x)
  attached-Settles (value u, b) x k f = k
  attached-Settles (unexpected e, b) x k f = (map_app_error-ne-ok e, f)

  -- The status that an operation on `a` gives, with what it leaves.
  abbrev pub Reports : ActiveSessions → SessionOpStatus → ActiveSessions → Type 0
  Reports a SessionOpStatus.session_not_found b = IsSame a b
  Reports a SessionOpStatus.success b = Unit
  Reports a SessionOpStatus.websocket_not_found b = Unit

  operated-Settles :
      (id : ℕ) (s : SessionOpStatus) (x y : Exchange)
      → Reports x.router.active s y.router.active
      → Settles x (operated o req id s y)
  unfolding build_success_response
  operated-Settles id SessionOpStatus.success x y h = refl
  operated-Settles id SessionOpStatus.websocket_not_found x y h = refl
  operated-Settles id SessionOpStatus.session_not_found x y h = (cc, h)

  either-Reports :
      (b : Bool) (a c : ActiveSessions)
      → Reports a
          (if◌then◌else◌ {A = SessionOpStatus} b SessionOpStatus.success
            SessionOpStatus.websocket_not_found)
          c
  either-Reports true a c = tt
  either-Reports false a c = tt

  reclaim-Reports :
      (id : ℕ) (s : Option Session) (a : ActiveSessions)
      → Reports a (reclaim id s a).0 (reclaim id s a).2
  reclaim-Reports id none a = IsSame-refl a
  reclaim-Reports id (some s) a = either-Reports _ a _

  update-Reports :
      (id : ℕ) (f : Session → Session) (s : Option Session) (a : ActiveSessions)
      → Reports a (update id f s a).0 (update id f s a).1
  update-Reports id f none a = IsSame-refl a
  update-Reports id f (some s) a = tt

  with_id-Settles :
      (id : Option ℕ) (h : ℕ → Exchange → Handled) (x : Exchange)
      → ((i : ℕ) → Settles x (h i x))
      → Settles x (with_id o req (extract_session_id (record req { id = id })) h x)
  with_id-Settles none h x p = (cc, IsSame-refl x.router.active)
  with_id-Settles (some i) h x p = p i

  connect-Settles :
      (b : Bool) (x : Exchange)
      → req.is_upgrade ≡ b
      → x.res.result ≡ ok
      → Settles x (handle_websocket_request o req x)
  unfolding handle_websocket_request create_and_run_websocket_session
  connect-Settles true x e k = rw (e) (
      with_id-Settles req.id (attach_with o req) x (λ i.
        attached-Settles _ x k (attach-Fails i (find i x.router.active.sessions) x.router.active)))
  connect-Settles false x e k = rw (e) (cc, IsSame-refl x.router.active)

  handler_of-Settles :
      (e : Endpoint) (x : Exchange) → x.res.result ≡ ok → Settles x (handler_of o req e x)
  unfolding handle_transmit handle_secure_transmit handle_webrtc_request process_session_request
      handle_stop handle_pause handle_resume handle_metrics build_plaintext_response remove_session
      pause_session resume_session
  handler_of-Settles transmit x k = process_parsed-Settles req.body standard x
  handler_of-Settles secure_transmit x k = process_parsed-Settles req.body standart_encrypted x
  handler_of-Settles preview x k = process_parsed-Settles req.body web_rtc x
  handler_of-Settles connect x k = connect-Settles req.is_upgrade x refl k
  handler_of-Settles stop x k = with_id-Settles req.id (stop_with o req) x (λ i.
      operated-Settles i _ x _
        (reclaim-Reports i (find i x.router.active.sessions) x.router.active))
  handler_of-Settles pause x k = with_id-Settles req.id (pause_with o req) x (λ i.
      operated-Settles i _ x _
        (update-Reports i Session.pause (find i x.router.active.sessions) x.router.active))
  handler_of-Settles resume x k = with_id-Settles req.id (resume_with o req) x (λ i.
      operated-Settles i _ x _
        (update-Reports i Session.resume (find i x.router.active.sessions) x.router.active))
  handler_of-Settles metrics x k = refl

  dispatch-Settles :
      (e : Option Endpoint) (x : Exchange) → x.res.result ≡ ok → Settles x (dispatch o req e x)
  dispatch-Settles none x k = (cc, IsSame-refl x.router.active)
  dispatch-Settles (some e) x k = elim (Bool-cases (same_verb req.method (method_of e))) [
    | inl b ↦ rw (b) (handler_of-Settles e x k)
    | inr b ↦ rw (b) (cc, IsSame-refl x.router.active)
  ]

  answer-Settles :
      (x : Exchange) (h : Handled)
      → Settles x h
      → (answer o req h).res.result ≢ ok
      → IsSame x.router.active (answer o req h).router.active
  answer-Settles x (value u, y) s n = absurd (n s)
  answer-Settles x (unexpected e, y) s n = s.1

  -- Where the answer to a request has another status than 200, the request left the sessions and
  -- the WebSockets as they were.
  pub route_query-failed :
      (x : Exchange)
      → x.res.result ≡ ok
      → (route_query o req x).res.result ≢ ok
      → IsSame x.router.active (route_query o req x).router.active
  unfolding route_query
  route_query-failed x k = at req.path
    where
      at :
          (path : Option String)
          → (route_path o req path (counted o req x)).res.result ≢ ok
          → IsSame x.router.active (route_path o req path (counted o req x)).router.active
      at none n = IsSame-refl x.router.active
      at (some path) n =
          answer-Settles (counted o req x) (try_routes o req path (counted o req x))
            (subst (Settles (counted o req x))
              (sym (try_routes-dispatch o req path (counted o req x)))
              (dispatch-Settles (endpoint_of path) (counted o req x) k))
            n
