-- ===== src/Http/Router/Creation.antt =====
-- src/network/http/Router.cpp down to src/core/session/Session.cpp: from a request to a new session.
use Prim.Native.String.{String}
use hermes_flow_server.Common.{
  ℕ, ◌+◌, ◌%◌, ◌^◌, ◌≡◌, refl, ap, ◌∙◌, subst, Bool, true, false, Option, none, some, if◌then◌else◌,
  ◌==◌, length, ◌&&◌, not,
}
use mathlib.Core.Bool.{false≢true}
use hermes_flow_server.Common.Expected.{value}
use hermes_flow_server.Session.{construct}
use hermes_flow_server.Graph.{Graph}
use hermes_flow_server.Graph.Parse.{FlowJson, parse_graph}
use hermes_flow_server.Graph.Wiring.{Ensures}
use hermes_flow_server.Graph.Accepted.{IsSound, starts_below, parse_graph-IsSound}
use hermes_flow_server.Sessions.Maps.{find-insert}
use hermes_flow_server.Sessions.{
  ActiveSessions, SessionType, standard, standart_encrypted, find, get, create_session,
  create_parsed, place_session, create, insert,
}
use hermes_flow_server.Http.Response.{ok, success_json, build_success_response}
use hermes_flow_server.Http.Router.{
  post, object, Request, Exchange, Outside, process_session_request, process_parsed, created,
  handle_transmit, handle_secure_transmit, has_start, graph_result, counted, answer, route_path,
  route_query,
}
use hermes_flow_server.Http.Router.Routes.{
  Endpoint, transmit, secure_transmit, endpoint_of, dispatch, try_routes-dispatch,
}

-- The endpoints that create a session which needs no port, with its type and whether it is encrypted.
pub data Creates : Endpoint → SessionType → Bool → Type 0 where
  plain : Creates transmit standard false
  encrypted : Creates secure_transmit standart_encrypted true

-- A graph that was accepted has a start node.
started :
    (g : Graph) (s : Option ℕ)
    → g.start_node ≡ s
    → starts_below (length g.nodes) s ≡ true
    → has_start g ≡ true
started g none e h = absurd (false≢true h)
started g (some i) e h = rw (e) refl

parsed-has_start :
    (flow : Option FlowJson) (g : Graph) → parse_graph flow ≡ value g → has_start g ≡ true
parsed-has_start flow g e =
    let sound : IsSound g = subst (Ensures IsSound) e (parse_graph-IsSound flow) in
    started g g.start_node refl sound.starts

-- The registry with one more session.
abbrev pub placed : ℕ → Bool → ActiveSessions → ActiveSessions
placed id is_encrypted a = record a {
  next_session_id = (a.next_session_id + 1) % 2 ^ 64;
  sessions = insert id (construct false none is_encrypted) a.sessions;
}

-- An encrypted session is made with an initial vector of 16 bytes, those of the salt.
abbrev pub HasVector : Bool → ActiveSessions → Type 0
HasVector b a = b && not (a.salt_size == 16) ≡ false

create_session_lem :
    (e : Endpoint) (t : SessionType) (b : Bool) (id : ℕ) (a : ActiveSessions)
    → Creates e t b
    → HasVector b a
    → create_session id (value true) t a ≡ (value id, placed id b a)
unfolding create_session create_parsed place_session create
create_session_lem e t b id a plain v = refl
create_session_lem e t b id a encrypted v = rw (v) refl

module _ (o : Outside) (req : Request) where
  process_created :
      (e : Endpoint) (t : SessionType) (b : Bool) (flow : Option FlowJson) (g : Graph)
      (x : Exchange)
      → Creates e t b
      → HasVector b x.router.active
      → parse_graph flow ≡ value g
      → process_parsed o req (object flow) t x
        ≡ created o req (value o.new_id, placed o.new_id b x.router.active) x
  process_created e t b flow g x c v p =
      ap (λ r. created o req (create_session o.new_id (graph_result r) t x.router.active) x) p
      ∙ ap (λ h. created o req (create_session o.new_id (value h) t x.router.active) x)
          (parsed-has_start flow g p)
      ∙ ap (λ r. created o req r x) (create_session_lem e t b o.new_id x.router.active c v)

  dispatch_created :
      (e : Endpoint) (t : SessionType) (b : Bool) (x : Exchange)
      → Creates e t b
      → req.method ≡ post
      → dispatch o req (some e) x ≡ process_parsed o req req.body t x
  unfolding handle_transmit handle_secure_transmit process_session_request
  dispatch_created e t b x plain m = rw (m) refl
  dispatch_created e t b x encrypted m = rw (m) refl

  -- A POST to an endpoint for sessions without WebRTC, with a body whose graph is accepted and, for the
  -- endpoint that encrypts, under a configuration whose salt has 16 bytes, is answered with status 200, the new identifier, and the word that the connection closes; under
  -- this identifier there is now a session that is not yet running, encrypted just where the
  -- endpoint says so, and no other changed.
  pub route_query_created :
      (path : String) (e : Endpoint) (t : SessionType) (b : Bool) (flow : Option FlowJson)
      (g : Graph) (x : Exchange) (other : ℕ)
      → Creates e t b
      → HasVector b x.router.active
      → req.path ≡ some path
      → endpoint_of path ≡ some e
      → req.method ≡ post
      → req.body ≡ object flow
      → parse_graph flow ≡ value g
      → let y = route_query o req x in
        (y.res.result ≡ ok)
        × (y.res.body ≡ success_json o.new_id)
        × (y.res.keep_alive ≡ false)
        × (get y.router.active other ≡ (
            if o.new_id == other then some (construct false none b) else get x.router.active other))
  unfolding route_query build_success_response get
  route_query_created path e t b flow g x other c v at found m body p =
      let x' = counted o req x in
      let done : route_query o req x
          ≡ answer o req (created o req (value o.new_id, placed o.new_id b x'.router.active) x') =
        ap (λ q. route_path o req q x') at
        ∙ ap (answer o req) (
            try_routes-dispatch o req path x'
            ∙ ap (λ q. dispatch o req q x') found
            ∙ dispatch_created e t b x' c m
            ∙ ap (λ q. process_parsed o req q t x') body
            ∙ process_created e t b flow g x' c v p) in
      (
        ap (λ y. y.res.result) done,
        ap (λ y. y.res.body) done,
        ap (λ y. y.res.keep_alive) done,
        ap (λ y. find other y.router.active.sessions) done
            ∙ find-insert o.new_id other (construct false none b) x.router.active.sessions,
      )
