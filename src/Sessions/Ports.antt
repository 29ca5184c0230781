-- ===== src/Sessions/Ports.antt =====
-- src/core/session/ActiveSessions.cpp: which ports the pool holds, and who else holds them.
use hermes_flow_server.Common.{
  ℕ, zero, suc, ◌+◌, ◌-◌, ◌%◌, ◌^◌, ◌<◌, ◌≤◌, ◌≡◌, ◌≢◌, refl, ◌∙◌, ap, Bool, true, false, Option,
  none, some, List, [], ◌∷◌, ◌++◌, arith, ltb, if◌then◌else◌, Bool-cases, inl, inr, append_assoc,
  length, ltb-false, lt→ltb, append-nil, length-append,
}
use hermes_flow_server.Common.Expected.{Expected, value, unexpected}
use hermes_flow_server.Types.{AppError, logic_error}
use hermes_flow_server.Session.{Session, construct, pause, resume}
use hermes_flow_server.Sessions.Maps.{find-insert, find-insert_self}
use hermes_flow_server.Sessions.{
  ActiveSessions, Failure, failed, thrown, SessionType, web_rtc, standard, standart_encrypted, find,
  insert, fill_ports, create_session, create_parsed, place_session, allocate_webrtc_port, create,
  remove_session, get, Op, create_op, websocket_op, put_op, remove_op, pause_op, resume_op, step,
  run, create_and_run_websocket_session, pause_session, resume_session, push_port, reclaim, attach,
  put_websocket, update, create_graph, create_with_port, pop_front,
}

abbrev pub range : ℕ → ℕ → List ℕ
range p zero = []
range p (suc n) = p ∷ range (p + 1) n

fill_ports_from :
    (fuel p port_end n : ℕ) (queue : List ℕ)
    → p + n ≡ port_end + 1
    → port_end < 65535
    → n < fuel
    → fill_ports fuel p port_end queue ≡ some (queue ++ range p n)
unfolding fill_ports
fill_ports_from zero p port_end n queue e l f = absurd (omega arith)
fill_ports_from (suc fuel) p port_end zero queue e l f =
    let out : ltb port_end p ≡ true = lt→ltb _ _ (omega arith) in rw (out, append-nil queue) refl
fill_ports_from (suc fuel) p port_end (suc n) queue e l f =
    let inside : ltb port_end p ≡ false = ltb-false _ _ (omega arith) in
    let next : (p + 1) % 65536 ≡ p + 1 = omega arith in
    rw (inside, next)
      (fill_ports_from fuel (p + 1) port_end n (queue ++ p ∷ []) (omega arith) l (omega arith)
        ∙ ap some (append_assoc queue (p ∷ []) (range (p + 1) n)))

-- With a range that ends below 65535, the loop of the constructor ends, within a number of turns one
-- above the ports', and the pool holds every port of the range, in order.
pub fill_ports_lem :
    (fuel port_start port_end : ℕ)
    → port_start ≤ port_end
    → port_end < 65535
    → port_end + 1 - port_start < fuel
    → fill_ports fuel port_start port_end [] ≡ some (range port_start (port_end + 1 - port_start))
fill_ports_lem fuel port_start port_end l u f =
    fill_ports_from fuel port_start port_end (port_end + 1 - port_start) [] (omega arith) u f

-- With a range up to 65535, the loop of the constructor does not end within any number of turns.
pub fill_ports_endless :
    (fuel p : ℕ) (queue : List ℕ) → p < 65536 → fill_ports fuel p 65535 queue ≡ none
unfolding fill_ports
fill_ports_endless zero p queue l = refl
fill_ports_endless (suc fuel) p queue l =
    let e : ltb 65535 p ≡ false = ltb-false _ _ (omega arith) in
    rw (e) (fill_ports_endless fuel ((p + 1) % 2 ^ 16) (queue ++ p ∷ []) (omega arith))

-- A WebRTC session for a graph with a start node takes the port at the front of the pool, and
-- the pool gets the port back at once, at its end.
pub create_session_webrtc :
    (a : ActiveSessions) (id p : ℕ) (ps : List ℕ)
    → a.available_webrtc_ports ≡ p ∷ ps
    → let (r, a') = create_session id (value true) web_rtc a in
      (r ≡ value id)
      × (get a' id ≡ some (construct true (some p) false))
      × (a'.available_webrtc_ports ≡ ps ++ p ∷ [])
unfolding create_session create_parsed place_session allocate_webrtc_port create get
create_session_webrtc a id p ps h =
    rw (h) (refl, find-insert_self id (construct true (some p) false) a.sessions, refl)

-- Where the pool holds a single port, both of two WebRTC sessions that are created in a row
-- under different identifiers are given it.
pub create_session_shared :
    (a : ActiveSessions) (id id' p : ℕ)
    → id ≢ id'
    → a.available_webrtc_ports ≡ p ∷ []
    → let a' = (create_session id (value true) web_rtc a).1 in
      let a'' = (create_session id' (value true) web_rtc a').1 in
      (get a'' id ≡ some (construct true (some p) false))
      × (get a'' id' ≡ some (construct true (some p) false))
unfolding create_session create_parsed place_session allocate_webrtc_port create get
create_session_shared a id id' p d h = rw (h) (
  ground (
    arith,
    find-insert id' id (construct true (some p) false)
        (insert id (construct true (some p) false) a.sessions),
    find-insert_self id (construct true (some p) false) a.sessions,
  ),
  find-insert_self id' (construct true (some p) false)
      (insert id (construct true (some p) false) a.sessions),
)

abbrev pub HasPort : ActiveSessions → Type 0
HasPort a = 0 < length a.available_webrtc_ports

push_port-HasPort : (port : Option ℕ) (a : ActiveSessions) → HasPort a → HasPort (push_port port a)
push_port-HasPort none a h = h
push_port-HasPort (some p) a h = omega (arith, length-append a.available_webrtc_ports (p ∷ []))

-- The allocation, for the list of ports that the pool holds.
abbrev popped : List ℕ → ActiveSessions → Option ℕ × ActiveSessions
popped ports a = ((pop_front ports).0, record a { available_webrtc_ports = (pop_front ports).1 })

popped-HasPort :
    (id : ℕ) (has_start : Bool) (ports : List ℕ) (a : ActiveSessions)
    → 0 < length ports
    → let (r, a') = create_with_port id web_rtc has_start (popped ports a) in
      HasPort a' × (r ≡ (if has_start then value id else unexpected (failed logic_error)))
unfolding place_session create
popped-HasPort id has_start [] a h = absurd (omega arith)
popped-HasPort id true (p ∷ ps) a h = (omega (arith, length-append ps (p ∷ [])), refl)
popped-HasPort id false (p ∷ ps) a h = (omega (arith, length-append (ps ++ p ∷ []) (p ∷ [])), refl)

create_with_port-HasPort :
    (id : ℕ) (has_start : Bool) (a : ActiveSessions)
    → HasPort a
    → let (r, a') = create_with_port id web_rtc has_start (allocate_webrtc_port a) in
      HasPort a' × (r ≡ (if has_start then value id else unexpected (failed logic_error)))
unfolding allocate_webrtc_port
create_with_port-HasPort id has_start a h = popped-HasPort id has_start a.available_webrtc_ports a h

place_session-HasPort :
    (id : ℕ) (t : SessionType) (r : Expected Failure Session) (a : ActiveSessions)
    → HasPort a
    → HasPort (place_session id t none r a).1
unfolding place_session
place_session-HasPort id t (value s) a h = h
place_session-HasPort id t (unexpected (failed e)) a h = h
place_session-HasPort id t (unexpected thrown) a h = h

create_graph-HasPort :
    (id : ℕ) (g : Expected AppError Bool) (t : SessionType) (a : ActiveSessions)
    → HasPort a
    → HasPort (create_graph id g t a).1
unfolding create_parsed
create_graph-HasPort id (unexpected e) t a h = h
create_graph-HasPort id (value has_start) web_rtc a h =
    (create_with_port-HasPort id has_start a h).0
create_graph-HasPort id (value b) standard a h =
    place_session-HasPort id standard (create b false none false a.salt_size) a h
create_graph-HasPort id (value b) standart_encrypted a h =
    place_session-HasPort id standart_encrypted (create b false none true a.salt_size) a h

put_websocket-HasPort : (id : ℕ) (a : ActiveSessions) → HasPort a → HasPort (put_websocket id a)
unfolding put_websocket
put_websocket-HasPort id a h = h

attach-HasPort :
    (id : ℕ) (o : Option Session) (a : ActiveSessions) → HasPort a → HasPort (attach id o a).1
attach-HasPort id none a h = h
attach-HasPort id (some s) a h = elim (Bool-cases s.is_running) [
  | inl b ↦ rw (b) h
  | inr b ↦ rw (b) (put_websocket-HasPort id a h)
]

reclaim-HasPort :
    (id : ℕ) (o : Option Session) (a : ActiveSessions) → HasPort a → HasPort (reclaim id o a).2
reclaim-HasPort id none a h = h
reclaim-HasPort id (some s) a h = push_port-HasPort s.janus_port a h

update-HasPort :
    (id : ℕ) (f : Session → Session) (o : Option Session) (a : ActiveSessions)
    → HasPort a
    → HasPort (update id f o a).1
update-HasPort id f none a h = h
update-HasPort id f (some s) a h = h

step-HasPort : (a : ActiveSessions) (o : Op) → HasPort a → HasPort (step a o)
unfolding step create_session remove_session put_websocket create_and_run_websocket_session
    pause_session resume_session
step-HasPort a (create_op id g t) h =
    create_graph-HasPort id g t (record a { next_session_id = (a.next_session_id + 1) % 2 ^ 64 }) h
step-HasPort a (websocket_op id) h = attach-HasPort id (find id a.sessions) a h
step-HasPort a (put_op id) h = h
step-HasPort a (remove_op id) h = reclaim-HasPort id (find id a.sessions) a h
step-HasPort a (pause_op id) h = update-HasPort id pause (find id a.sessions) a h
step-HasPort a (resume_op id) h = update-HasPort id resume (find id a.sessions) a h

run-HasPort : (a : ActiveSessions) (os : List Op) → HasPort a → HasPort (run a os)
unfolding run
run-HasPort a [] h = h
run-HasPort a (o ∷ os) h = run-HasPort (step a o) os (step-HasPort a o h)

allocate-HasPort :
    (a : ActiveSessions) (id : ℕ)
    → HasPort a
    → (create_session id (value true) web_rtc a).0 ≡ value id
unfolding create_session create_parsed
allocate-HasPort a id h =
    (create_with_port-HasPort id true
      (record a { next_session_id = (a.next_session_id + 1) % 2 ^ 64 }) h).1

-- A pool that holds a port never runs out, whatever operations are called: a WebRTC session for
-- a graph with a start node is always made.
pub ports_never_run_out :
    (a : ActiveSessions) (os : List Op) (id : ℕ)
    → 0 < length a.available_webrtc_ports
    → (create_session id (value true) web_rtc (run a os)).0 ≡ value id
ports_never_run_out a os id h = allocate-HasPort (run a os) id (run-HasPort a os h)
