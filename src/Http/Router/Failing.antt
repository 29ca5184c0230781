-- ===== src/Http/Router/Failing.antt =====
-- src/core/session/ActiveSessions.cpp: what its operations leave where they fail.
use hermes_flow_server.Common.{
  ℕ, ◌+◌, ◌%◌, ◌^◌, ◌≡◌, refl, ◌∙◌, Bool, true, false, Option, none, some, inl, inr, Bool-cases,
}
use hermes_flow_server.Common.Expected.{Expected, value, unexpected}
use hermes_flow_server.Types.{AppError}
use hermes_flow_server.Session.{Session}
use hermes_flow_server.Sessions.{
  ActiveSessions, Failure, failed, thrown, SessionType, standard, standart_encrypted, web_rtc,
  push_port, create_session, create, create_with_port, create_graph, create_parsed, place_session,
  allocate_webrtc_port, attach, is_encrypted,
}

-- The same sessions and WebSockets.
pub record IsSame (a b : ActiveSessions) : Type 0 where
  pub sessions : b.sessions ≡ a.sessions
  pub websockets : b.websocket_sessions ≡ a.websocket_sessions

pub IsSame-refl : (a : ActiveSessions) → IsSame a a
IsSame-refl a = record { sessions = refl; websockets = refl }

-- An operation that fails leaves the maps alone.
abbrev pub Fails : {E A : Type 0} → ActiveSessions → Expected E A × ActiveSessions → Type 0
Fails a (value v, b) = Unit
Fails a (unexpected e, b) = IsSame a b

push_port-IsSame : (p : Option ℕ) (a : ActiveSessions) → IsSame a (push_port p a)
push_port-IsSame none a = IsSame-refl a
push_port-IsSame (some p) a = record { sessions = refl; websockets = refl }

place_session-Fails :
    (id : ℕ) (t : SessionType) (p : Option ℕ) (r : Expected Failure Session) (a : ActiveSessions)
    → Fails a (place_session id t p r a)
unfolding place_session
place_session-Fails id t p (value s) a = tt
place_session-Fails id t none (unexpected (failed e)) a = IsSame-refl a
place_session-Fails id t none (unexpected thrown) a = IsSame-refl a
place_session-Fails id t (some p) (unexpected thrown) a = record {
  sessions = refl;
  websockets = refl;
}
place_session-Fails id t (some p) (unexpected (failed e)) a = record {
  sessions = refl;
  websockets = refl;
}

create_with_port-Fails :
    (id : ℕ) (t : SessionType) (has_start : Bool) (a b : ActiveSessions) (p : Option ℕ)
    → IsSame a b
    → Fails a (create_with_port id t has_start (p, b))
create_with_port-Fails id t has_start a b none h = h
create_with_port-Fails id t has_start a b (some p) h =
    same_base a b (create_with_port id t has_start (some p, b)) h (
      place_session-Fails id t (some p)
        (create has_start true (some p) (is_encrypted t) b.salt_size) b)
  where
    same_base :
        (a b : ActiveSessions) (r : Expected Failure ℕ × ActiveSessions)
        → IsSame a b
        → Fails b r
        → Fails a r
    same_base a b (value v, c) h f = tt
    same_base a b (unexpected e, c) h f = record {
      sessions = f.sessions ∙ h.sessions;
      websockets = f.websockets ∙ h.websockets;
    }

create_graph-Fails :
    (id : ℕ) (g : Expected AppError Bool) (t : SessionType) (a : ActiveSessions)
    → Fails a (create_graph id g t a)
unfolding create_parsed allocate_webrtc_port
create_graph-Fails id (unexpected e) t a = IsSame-refl a
create_graph-Fails id (value b) web_rtc a =
    create_with_port-Fails id web_rtc b a (allocate_webrtc_port a).1 (allocate_webrtc_port a).0
      (record { sessions = refl; websockets = refl })
create_graph-Fails id (value b) standard a =
    place_session-Fails id standard none (create b false none false a.salt_size) a
create_graph-Fails id (value b) standart_encrypted a =
    place_session-Fails id standart_encrypted none (create b false none true a.salt_size) a

pub create_session-Fails :
    (id : ℕ) (g : Expected AppError Bool) (t : SessionType) (a : ActiveSessions)
    → Fails
        (record a { next_session_id = (a.next_session_id + 1) % 2 ^ 64 })
        (create_session id g t a)
unfolding create_session
create_session-Fails id g t a =
    create_graph-Fails id g t (record a { next_session_id = (a.next_session_id + 1) % 2 ^ 64 })

pub attach-Fails : (id : ℕ) (s : Option Session) (a : ActiveSessions) → Fails a (attach id s a)
attach-Fails id none a = IsSame-refl a
attach-Fails id (some s) a = elim (Bool-cases s.is_running) [
  | inl b ↦ rw (b) (IsSame-refl a)
  | inr b ↦ rw (b) tt
]
