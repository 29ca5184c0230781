-- ===== src/Sessions/Lifecycle.antt =====
-- src/core/session/ActiveSessions.cpp: what each operation does to the maps.
use hermes_flow_server.Common.{
  ℕ, ◌+◌, ◌%◌, ◌^◌, ◌≡◌, refl, ◌∙◌, ap, Bool, true, false, Option, none, some, List, [], ◌∷◌, arith,
  if◌then◌else◌, ◌==◌, subst,
}
use mathlib.Core.Option
use hermes_flow_server.Common.Expected.{Expected, value, unexpected}
use hermes_flow_server.Types.{AppError, logic_error}
use hermes_flow_server.Session.{Session, pause, resume, attach_observer, stop}
use hermes_flow_server.Sessions.Maps.{
  find-insert, find-erase, KeysDistinct, insert-KeysDistinct, erase-KeysDistinct, IdsDistinct,
  contains-remove_key, remove_key-IdsDistinct,
}
use hermes_flow_server.Sessions.{
  ActiveSessions, Failure, failed, thrown, SessionType, web_rtc, standard, standart_encrypted, find,
  contains, create_session, create_parsed, place_session, allocate_webrtc_port, create,
  remove_session, get, Op, create_op, websocket_op, put_op, remove_op, pause_op, resume_op, step,
  run, create_and_run_websocket_session, pause_session, resume_session, push_port, reclaim, attach,
  put_websocket, update, create_graph, create_with_port, insert, is_encrypted,
}

abbrev pub is_some : {A : Type 0} → Option A → Bool
is_some none = false
is_some (some a) = true

-- Every map has its keys once, and every WebSocket belongs to a session.
pub record IsConsistent (a : ActiveSessions) : Type 0 where
  pub sessions_distinct : KeysDistinct a.sessions
  pub websockets_distinct : IdsDistinct a.websocket_sessions
  pub belongs :
      (id : ℕ) → contains id a.websocket_sessions ≡ true → is_some (find id a.sessions) ≡ true

push_port-IsConsistent :
    (port : Option ℕ) (a : ActiveSessions) → IsConsistent a → IsConsistent (push_port port a)
push_port-IsConsistent none a h = h
push_port-IsConsistent (some p) a h = record {
  sessions_distinct = h.sessions_distinct;
  websockets_distinct = h.websockets_distinct;
  belongs = h.belongs;
}

either-IsConsistent :
    (running : Bool) (a b : ActiveSessions)
    → IsConsistent a
    → IsConsistent b
    → IsConsistent
        (if◌then◌else◌ {A = Expected AppError Unit × ActiveSessions} running
          (unexpected logic_error, a)
          (value tt, b)).1
either-IsConsistent true a b h k = h
either-IsConsistent false a b h k = k

-- The WebSocket of a session that is still there.
put_websocket-IsConsistent :
    (id : ℕ) (o : Option Session) (a : ActiveSessions)
    → find id a.sessions ≡ o
    → is_some o ≡ true
    → IsConsistent a
    → IsConsistent (put_websocket id a)
unfolding put_websocket
put_websocket-IsConsistent id none a e l h = absurd cc
put_websocket-IsConsistent id (some s) a e l h = rw (e) (record {
  sessions_distinct = insert-KeysDistinct id (attach_observer s) a.sessions h.sessions_distinct;
  websockets_distinct = ground (arith, h.websockets_distinct);
  belongs = λ i c. ground (arith, c, find-insert id i (attach_observer s) a.sessions, h.belongs i);
})

attach-IsConsistent :
    (id : ℕ) (o : Option Session) (a : ActiveSessions)
    → find id a.sessions ≡ o
    → IsConsistent a
    → IsConsistent (attach id o a).1
attach-IsConsistent id none a e h = h
attach-IsConsistent id (some s) a e h =
    either-IsConsistent s.is_running a (put_websocket id a) h
      (put_websocket-IsConsistent id (some s) a e refl h)

reclaim-IsConsistent :
    (id : ℕ) (o : Option Session) (a : ActiveSessions)
    → IsConsistent a
    → IsConsistent (reclaim id o a).2
reclaim-IsConsistent id none a h = h
reclaim-IsConsistent id (some s) a h = record {
  sessions_distinct = erase-KeysDistinct id a.sessions h.sessions_distinct;
  websockets_distinct = remove_key-IdsDistinct id a.websocket_sessions h.websockets_distinct;
  belongs = λ i c. ground (
    arith,
    c,
    find-erase id i a.sessions h.sessions_distinct,
    contains-remove_key id i a.websocket_sessions h.websockets_distinct,
    h.belongs i,
  );
}

update-IsConsistent :
    (id : ℕ) (f : Session → Session) (o : Option Session) (a : ActiveSessions)
    → IsConsistent a
    → IsConsistent (update id f o a).1
update-IsConsistent id f none a h = h
update-IsConsistent id f (some s) a h = record {
  sessions_distinct = insert-KeysDistinct id (f s) a.sessions h.sessions_distinct;
  websockets_distinct = h.websockets_distinct;
  belongs = λ i c. ground (arith, find-insert id i (f s) a.sessions, h.belongs i c);
}

place_session-IsConsistent :
    (id : ℕ) (t : SessionType) (port : Option ℕ) (r : Expected Failure Session) (a : ActiveSessions)
    → IsConsistent a
    → IsConsistent (place_session id t port r a).1
unfolding place_session
place_session-IsConsistent id t port (unexpected (failed e)) a h =
    push_port-IsConsistent port (push_port port a) (push_port-IsConsistent port a h)
place_session-IsConsistent id t port (unexpected thrown) a h = push_port-IsConsistent port a h
place_session-IsConsistent id t port (value s) a h =
    push_port-IsConsistent port (record a { sessions = insert id s a.sessions })
      (record {
        sessions_distinct = insert-KeysDistinct id s a.sessions h.sessions_distinct;
        websockets_distinct = h.websockets_distinct;
        belongs = λ i c. ground (arith, find-insert id i s a.sessions, h.belongs i c);
      })

create_with_port-IsConsistent :
    (id : ℕ) (t : SessionType) (has_start : Bool) (r : Option ℕ × ActiveSessions)
    → IsConsistent r.1
    → IsConsistent (create_with_port id t has_start r).1
create_with_port-IsConsistent id t has_start (none, a) h = h
create_with_port-IsConsistent id t has_start (some p, a) h =
    place_session-IsConsistent id t (some p)
      (create has_start true (some p) (is_encrypted t) a.salt_size) a h

-- What consistency speaks of is not touched by the pool or the counter.
IsConsistent-same :
    (a b : ActiveSessions)
    → a.sessions ≡ b.sessions
    → a.websocket_sessions ≡ b.websocket_sessions
    → IsConsistent a
    → IsConsistent b
IsConsistent-same a b e f h = record {
  sessions_distinct = subst KeysDistinct e h.sessions_distinct;
  websockets_distinct = subst IdsDistinct f h.websockets_distinct;
  belongs = λ i c. rw (← e) (h.belongs i (ap (contains i) f ∙ c));
}

create_graph-IsConsistent :
    (id : ℕ) (g : Expected AppError Bool) (t : SessionType) (a : ActiveSessions)
    → IsConsistent a
    → IsConsistent (create_graph id g t a).1
unfolding create_parsed allocate_webrtc_port
create_graph-IsConsistent id (unexpected e) t a h = h
create_graph-IsConsistent id (value b) web_rtc a h =
    create_with_port-IsConsistent id web_rtc b (allocate_webrtc_port a)
      (IsConsistent-same a (allocate_webrtc_port a).1 refl refl h)
create_graph-IsConsistent id (value b) standard a h =
    place_session-IsConsistent id standard none (create b false none false a.salt_size) a h
create_graph-IsConsistent id (value b) standart_encrypted a h =
    place_session-IsConsistent id standart_encrypted none (create b false none true a.salt_size) a h

-- The second part of a call for a WebSocket comes while its session is still there.
abbrev pub IsLive : ActiveSessions → Op → Type 0
IsLive a (put_op id) = is_some (find id a.sessions) ≡ true
IsLive a _ = Unit

abbrev pub AreLive : ActiveSessions → List Op → Type 0
AreLive a [] = Unit
AreLive a (o ∷ os) = IsLive a o × AreLive (step a o) os

step-IsConsistent :
    (a : ActiveSessions) (o : Op) → IsLive a o → IsConsistent a → IsConsistent (step a o)
unfolding step create_session remove_session create_and_run_websocket_session pause_session
    resume_session
step-IsConsistent a (create_op id g t) l h =
    let counted = record a { next_session_id = (a.next_session_id + 1) % 2 ^ 64 } in
    create_graph-IsConsistent id g t counted (IsConsistent-same a counted refl refl h)
step-IsConsistent a (websocket_op id) l h = attach-IsConsistent id (find id a.sessions) a refl h
step-IsConsistent a (put_op id) l h = put_websocket-IsConsistent id (find id a.sessions) a refl l h
step-IsConsistent a (remove_op id) l h = reclaim-IsConsistent id (find id a.sessions) a h
step-IsConsistent a (pause_op id) l h = update-IsConsistent id pause (find id a.sessions) a h
step-IsConsistent a (resume_op id) l h = update-IsConsistent id resume (find id a.sessions) a h

-- From a consistent registry on, whatever operations are called, in whatever order, no identifier is
-- in a map twice, and no WebSocket is left whose session is gone, if no session is removed between
-- the two times that a call for its WebSocket locks.
pub run-IsConsistent :
    (a : ActiveSessions) (os : List Op) → AreLive a os → IsConsistent a → IsConsistent (run a os)
unfolding run
run-IsConsistent a [] l h = h
run-IsConsistent a (o ∷ os) l h = run-IsConsistent (step a o) os l.1 (step-IsConsistent a o l.0 h)

reclaim_lem :
    (id other : ℕ) (o : Option Session) (a : ActiveSessions)
    → IsConsistent a
    → find id a.sessions ≡ o
    → let (status, stopped, a') = reclaim id o a in
      (find other a'.sessions ≡ (if id == other then none else find other a.sessions))
      × (contains other a'.websocket_sessions
          ≡ (if id == other then false else contains other a.websocket_sessions))
      × (stopped ≡ Option.map stop o)
reclaim_lem id other none a h e = ground (arith, e, h.belongs other)
reclaim_lem id other (some s) a h e = (
  find-erase id other a.sessions h.sessions_distinct,
  contains-remove_key id other a.websocket_sessions h.websockets_distinct,
  refl,
)

-- In a consistent registry, removing a session stops it, and removes it and its WebSocket, and
-- no other.
pub remove_session_lem :
    (a : ActiveSessions) (id other : ℕ)
    → IsConsistent a
    → let (status, stopped, a') = remove_session id a in
      (get a' other ≡ (if id == other then none else get a other))
      × (contains other a'.websocket_sessions
          ≡ (if id == other then false else contains other a.websocket_sessions))
      × (stopped ≡ Option.map stop (get a id))
unfolding remove_session get
remove_session_lem a id other h = reclaim_lem id other (find id a.sessions) a h refl
