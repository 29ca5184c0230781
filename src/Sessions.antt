-- ===== src/Sessions.antt =====
-- src/core/session/ActiveSessions.cpp: the sessions by their identifiers, their WebSockets, and the pool
-- of WebRTC ports. An identifier is a number here: the code only compares them.
pub mod Maps
pub mod Ports
pub mod Lifecycle
use hermes_flow_server.Common.{
  ℕ, zero, suc, not, ◌&&◌, ◌+◌, ◌*◌, ◌%◌, ◌^◌, ◌==◌, Bool, true, false, Option, none, some, List,
  [], ◌∷◌, ◌++◌, map, length, if◌then◌else◌, ltb,
}
use hermes_flow_server.Common.Expected.{Expected, value, unexpected}
use hermes_flow_server.Types.{AppError, logic_error}
use hermes_flow_server.Session.{Session, construct, stop, pause, resume, attach_observer}

pub data SessionType : Type 0 where
  standard standart_encrypted web_rtc : SessionType

-- How a call fails: with an error of the code, or by the exception that the constructor of
-- `AESEncryptionStrategy` throws for an initial vector of another size than 16 bytes.
pub data Failure : Type 0 where
  failed : AppError → Failure
  thrown : Failure

-- Of the configuration it keeps the number of bytes of the salt for the encryption.
pub record ActiveSessions : Type 0 where
  pub next_session_id : ℕ
  pub available_webrtc_ports : List ℕ
  pub sessions : List (ℕ × Session)
  pub websocket_sessions : List ℕ
  pub salt_size : ℕ

-- `std::unordered_map` with one entry for each key.
module _ {A : Type 0} where
  abbrev pub find : ℕ → List (ℕ × A) → Option A
  find id [] = none
  find id ((k, v) ∷ rest) = if k == id then some v else find id rest

  abbrev pub insert : ℕ → A → List (ℕ × A) → List (ℕ × A)
  insert id a [] = (id, a) ∷ []
  insert id a ((k, v) ∷ rest) = if k == id then (k, a) ∷ rest else (k, v) ∷ insert id a rest

  abbrev pub erase : ℕ → List (ℕ × A) → List (ℕ × A)
  erase id [] = []
  erase id ((k, v) ∷ rest) = if k == id then rest else (k, v) ∷ erase id rest

abbrev pub contains : ℕ → List ℕ → Bool
contains id [] = false
contains id (k ∷ ks) = if k == id then true else contains id ks

abbrev pub remove_key : ℕ → List ℕ → List ℕ
remove_key id [] = []
remove_key id (k ∷ ks) = if k == id then ks else k ∷ remove_key id ks

-- The loop of the constructor over a `uint16_t`, on fuel: `none` where the fuel runs out.
unfoldable pub fill_ports : ℕ → ℕ → ℕ → List ℕ → Option (List ℕ)
fill_ports zero p port_end queue = none
fill_ports (suc fuel) p port_end queue =
    let rest = fill_ports fuel ((p + 1) % 2 ^ 16) port_end (queue ++ p ∷ []) in
    if ltb port_end p then some queue else rest

-- The front of the queue, and the queue without it.
abbrev pub pop_front : List ℕ → Option ℕ × List ℕ
pop_front [] = (none, [])
pop_front (p ∷ ps) = (some p, ps)

unfoldable pub allocate_webrtc_port : ActiveSessions → Option ℕ × ActiveSessions
allocate_webrtc_port a =
    let (port, rest) = pop_front a.available_webrtc_ports in
    (port, record a { available_webrtc_ports = rest })

abbrev pub push_port : Option ℕ → ActiveSessions → ActiveSessions
push_port none a = a
push_port (some p) a = record a { available_webrtc_ports = a.available_webrtc_ports ++ p ∷ [] }

abbrev pub is_web_rtc : SessionType → Bool
is_web_rtc web_rtc = true
is_web_rtc _ = false

abbrev pub is_encrypted : SessionType → Bool
is_encrypted standart_encrypted = true
is_encrypted _ = false

-- `Session::create`, which asks of the graph whether it has a start node, with the constructor. The
-- key that is derived has 16 bytes, and the initial vector those of the salt; a salt of fewer than 4
-- bytes, which is read outside its bounds before, is taken to end in the same exception.
unfoldable pub create : Bool → Bool → Option ℕ → Bool → ℕ → Expected Failure Session
create has_start webrtc port encrypted salt_size =
    if has_start
    then (if encrypted && not (salt_size == 16)
        then unexpected thrown
        else value (construct webrtc port encrypted))
    else unexpected (failed logic_error)

-- What `create_session` does once it has a port, or needs none. The guard's `released` is never
-- set, so its destructor puts the port back on every path, after the code's own return of it, which
-- an exception passes over.
unfoldable pub place_session :
    ℕ
    → SessionType
    → Option ℕ
    → Expected Failure Session
    → ActiveSessions
    → Expected Failure ℕ × ActiveSessions
place_session id session_type port (unexpected (failed e)) a =
    (unexpected (failed e), push_port port (push_port port a))
place_session id session_type port (unexpected thrown) a = (unexpected thrown, push_port port a)
place_session id session_type port (value s) a =
    (value id, push_port port (record a { sessions = insert id s a.sessions }))

-- The result of the allocation for a WebRTC session.
abbrev pub create_with_port :
    ℕ → SessionType → Bool → Option ℕ × ActiveSessions → Expected Failure ℕ × ActiveSessions
create_with_port id session_type has_start (none, a) = (unexpected (failed logic_error), a)
create_with_port id session_type has_start (some p, a) =
    place_session id session_type (some p)
      (create has_start true (some p) (is_encrypted session_type) a.salt_size) a

-- For a graph that was parsed, of which `has_start` says whether it has a start node.
unfoldable pub create_parsed :
    ℕ → SessionType → Bool → ActiveSessions → Expected Failure ℕ × ActiveSessions
unfolding place_session allocate_webrtc_port create
create_parsed id session_type has_start a =
    if is_web_rtc session_type
    then (create_with_port id session_type has_start (allocate_webrtc_port a))
    else place_session id session_type none
        (create has_start false none (is_encrypted session_type) a.salt_size) a

abbrev pub create_graph :
    ℕ → Expected AppError Bool → SessionType → ActiveSessions → Expected Failure ℕ × ActiveSessions
create_graph id (unexpected e) session_type a = (unexpected (failed e), a)
create_graph id (value has_start) session_type a = create_parsed id session_type has_start a

-- `create_session`, with the identifier that the generator gives and the result of `parse_graph`.
unfoldable pub create_session :
    ℕ → Expected AppError Bool → SessionType → ActiveSessions → Expected Failure ℕ × ActiveSessions
unfolding create_parsed
create_session id graph session_type a =
    create_graph id graph session_type
      (record a { next_session_id = (a.next_session_id + 1) % 2 ^ 64 })

unfoldable pub get : ActiveSessions → ℕ → Option Session
get a id = find id a.sessions

pub data SessionOpStatus : Type 0 where
  success session_not_found websocket_not_found : SessionOpStatus

-- The session that a WebSocket is for is told of it, where it is still there.
abbrev pub observe : ℕ → Option Session → List (ℕ × Session) → List (ℕ × Session)
observe id none sessions = sessions
observe id (some s) sessions = insert id (attach_observer s) sessions

-- The second part of `create_and_run_websocket_session`, with the second time that it locks. Other
-- operations may come between it and the first part, also one that removes the session.
unfoldable pub put_websocket : ℕ → ActiveSessions → ActiveSessions
put_websocket id a = record a {
  sessions = observe id (find id a.sessions) a.sessions;
  websocket_sessions =
      if contains id a.websocket_sessions then a.websocket_sessions else id ∷ a.websocket_sessions;
}

-- `create_and_run_websocket_session`, with nothing between its parts: the first looks the session up,
-- and asks whether it runs. The coroutine that it spawns begins later, and is an event of its own.
abbrev pub attach : ℕ → Option Session → ActiveSessions → Expected AppError Unit × ActiveSessions
attach id none a = (unexpected logic_error, a)
attach id (some s) a =
    if s.is_running then (unexpected logic_error, a) else (value tt, put_websocket id a)

unfoldable pub create_and_run_websocket_session :
    ℕ → ActiveSessions → Expected AppError Unit × ActiveSessions
unfolding put_websocket
create_and_run_websocket_session id a = attach id (find id a.sessions) a

-- The status, the session that was stopped, which its coroutine still holds, and the maps without it.
abbrev pub reclaim :
    ℕ → Option Session → ActiveSessions → SessionOpStatus × Option Session × ActiveSessions
reclaim id none a = (session_not_found, none, a)
reclaim id (some s) a =
    let a' = push_port s.janus_port a in
    (
      if contains id a.websocket_sessions then success else websocket_not_found,
      some (stop s),
      record a' {
        sessions = erase id a.sessions;
        websocket_sessions = remove_key id a.websocket_sessions;
      },
    )

unfoldable pub remove_session :
    ℕ → ActiveSessions → SessionOpStatus × Option Session × ActiveSessions
remove_session id a = reclaim id (find id a.sessions) a

abbrev pub update :
    ℕ → (Session → Session) → Option Session → ActiveSessions → SessionOpStatus × ActiveSessions
update id f none a = (session_not_found, a)
update id f (some s) a = (success, record a { sessions = insert id (f s) a.sessions })

unfoldable pub pause_session : ℕ → ActiveSessions → SessionOpStatus × ActiveSessions
pause_session id a = update id pause (find id a.sessions) a

unfoldable pub resume_session : ℕ → ActiveSessions → SessionOpStatus × ActiveSessions
resume_session id a = update id resume (find id a.sessions) a

abbrev pub size : ActiveSessions → ℕ
size a = length a.sessions

abbrev pub get_active_websockets_count : ActiveSessions → ℕ
get_active_websockets_count a = length a.websocket_sessions

abbrev pub get_available_webrtc_ports_count : ActiveSessions → ℕ
get_available_webrtc_ports_count a = length a.available_webrtc_ports

abbrev pub get_total_sessions_created : ActiveSessions → ℕ
get_total_sessions_created a = a.next_session_id

-- The operations in any order. `put_op` is the second part of a call for a WebSocket whose first part
-- came before the operations in front of it; the first part changes nothing.
pub data Op : Type 0 where
  create_op : ℕ → Expected AppError Bool → SessionType → Op
  websocket_op put_op remove_op pause_op resume_op : ℕ → Op

unfoldable pub step : ActiveSessions → Op → ActiveSessions
step a (create_op id graph session_type) = (create_session id graph session_type a).1
step a (websocket_op id) = (create_and_run_websocket_session id a).1
step a (put_op id) = put_websocket id a
step a (remove_op id) = (remove_session id a).2
step a (pause_op id) = (pause_session id a).1
step a (resume_op id) = (resume_session id a).1

unfoldable pub run : ActiveSessions → List Op → ActiveSessions
run a [] = a
run a (o ∷ os) = run (step a o) os
