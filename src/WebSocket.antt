-- ===== src/WebSocket.antt =====
-- src/network/websocket/WebSocketSession.cpp: the queue of messages, under the handlers that the
-- executor runs one after another. A message is a number.
pub mod Queue
pub mod Observer
use hermes_flow_server.Common.{
  ℕ, Bool, true, false, not, Option, none, some, List, [], ◌∷◌, ◌++◌, if◌then◌else◌,
}

-- The session, with what its stream does: the write that is under way, the messages written, whether
-- a write was begun during another, and the read.
pub record WebSocketSession : Type 0 where
  pub send_queue : List ℕ
  pub in_flight : Option ℕ
  pub delivered : List ℕ
  pub is_overlapped : Bool
  pub is_reading : Bool

abbrev pub construct : WebSocketSession
construct = record {
  send_queue = [];
  in_flight = none;
  delivered = [];
  is_overlapped = false;
  is_reading = false;
}

abbrev pub is_empty : List ℕ → Bool
is_empty [] = true
is_empty (m ∷ ms) = false

abbrev pub is_active : Option ℕ → Bool
is_active none = false
is_active (some m) = true

abbrev pub front : List ℕ → Option ℕ
front [] = none
front (m ∷ ms) = some m

abbrev pub pop_front : List ℕ → List ℕ
pop_front [] = []
pop_front (m ∷ ms) = ms

unfoldable pub do_write : WebSocketSession → WebSocketSession
do_write w = record w {
  in_flight = front w.send_queue;
  is_overlapped = if is_active w.in_flight then true else w.is_overlapped;
}

-- The handler that `send` posts.
unfoldable pub send : ℕ → WebSocketSession → WebSocketSession
unfolding do_write
send message w =
    let w' = record w { send_queue = w.send_queue ++ message ∷ [] } in
    if is_empty w.send_queue then do_write w' else w'

-- The write comes to its end, with an error or without one.
unfoldable pub on_write : Bool → WebSocketSession → WebSocketSession
unfolding do_write
on_write is_error w =
    let idle = record w { in_flight = none } in
    if is_error
    then idle
    else (let w' = record idle {
      send_queue = pop_front w.send_queue;
      delivered = w.delivered ++ (elim w.in_flight [ none ↦ [] | some m ↦ m ∷ [] ]);
    } in
        if is_empty w'.send_queue then w' else do_write w')

abbrev pub do_read : WebSocketSession → WebSocketSession
do_read w = record w { is_reading = true }

unfoldable pub on_accept : Bool → WebSocketSession → WebSocketSession
on_accept is_error w = if is_error then w else do_read w

-- An end of the stream, an abort and another error leave alike.
unfoldable pub on_read : Bool → WebSocketSession → WebSocketSession
on_read is_error w =
    let done = record w { is_reading = false } in if is_error then done else do_read done

-- What the executor runs. A handler of a write runs only while a write is under way.
pub data Event : Type 0 where
  send_event : ℕ → Event
  write_event accept_event read_event : Bool → Event

abbrev pub completed : Bool → Option ℕ → WebSocketSession → WebSocketSession
completed is_error none w = w
completed is_error (some m) w = on_write is_error w

unfoldable pub step : WebSocketSession → Event → WebSocketSession
unfolding send on_write on_accept on_read
step w (send_event m) = send m w
step w (write_event is_error) = completed is_error w.in_flight w
step w (accept_event is_error) = on_accept is_error w
step w (read_event is_error) = on_read is_error w

unfoldable pub run : WebSocketSession → List Event → WebSocketSession
run w [] = w
run w (e ∷ es) = run (step w e) es
