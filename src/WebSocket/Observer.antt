-- ===== src/WebSocket/Observer.antt =====
-- src/network/websocket/WebSocketSessionObserver.hpp: what a session tells its observer, as messages of
-- the WebSocket. `serialize` is the text that Boost.JSON makes of an object.
use Prim.Native.String.{String}
use hermes_flow_server.Common.{
  ℕ, ◌≡◌, refl, sym, ap, ◌∙◌, Bool, true, false, List, [], ◌∷◌, ◌++◌, map, append_assoc, append-nil,
  if◌then◌else◌,
}
use hermes_flow_server.Types.{NodeErrorCode}
use hermes_flow_server.Session.{Notice, error_notice, session_complete, webrtc_request}
use hermes_flow_server.Session.Loop.{SessionStats}
use hermes_flow_server.WebSocket.{WebSocketSession, send, step, send_event}
use hermes_flow_server.WebSocket.Queue.{IsOrdered, given, step-Keeps}

-- The values of an object. The text of an error is made of its code elsewhere.
data Value : Type 0 where
  text : String → Value
  number : ℕ → Value
  error_text : NodeErrorCode → Value

abbrev Object : Type 0
Object = List (String × Value)

unfoldable stats_object : SessionStats → Object
stats_object stats =
    ("type", text "stats")
    ∷ ("node", number stats.current_node_id)
    ∷ ("bytes", number stats.total_bytes_sent)
    ∷ ("packets", number stats.packets_sent)
    ∷ ("underruns", number stats.underruns)
    ∷ []

unfoldable notice_object : Notice → Object
notice_object (webrtc_request port) =
    ("type", text "webrtc_ready")
    ∷ ("mountpoint_id", number port)
    ∷ ("message", text "Session created successfully. Watch this mountpoint.")
    ∷ []
notice_object session_complete =
    ("type", text "completion") ∷ ("message", text "Session Complete") ∷ []
notice_object (error_notice code) = ("type", text "error") ∷ ("message", error_text code) ∷ []

module _ (serialize : Object → ℕ) where
  -- The weak pointer, which a session that is gone makes empty.
  unfoldable push : Bool → Object → WebSocketSession → WebSocketSession
  push is_alive o w = if is_alive then send (serialize o) w else w

  -- `on_stats_update`
  unfoldable on_stats_update : Bool → SessionStats → WebSocketSession → WebSocketSession
  unfolding push
  on_stats_update is_alive stats w = push is_alive (stats_object stats) w

  -- `on_webrtc_request`, `on_session_complete` and `on_error`
  unfoldable on_notice : Bool → Notice → WebSocketSession → WebSocketSession
  unfolding push
  on_notice is_alive n w = push is_alive (notice_object n) w

  unfoldable on_notices : Bool → List Notice → WebSocketSession → WebSocketSession
  unfolding on_notice
  on_notices is_alive [] w = w
  on_notices is_alive (n ∷ ns) w = on_notices is_alive ns (on_notice is_alive n w)

  -- What is told to the observer of a WebSocket that is alive is appended to its messages, in the
  -- order in which it is told; one that is gone is left alone.
  on_notices_lem :
      (ns : List Notice) (w : WebSocketSession)
      → IsOrdered w
      → (given (on_notices true ns w) ≡ given w ++ map (λ n. serialize (notice_object n)) ns)
        × IsOrdered (on_notices true ns w)
        × (on_notices false ns w ≡ w)
  unfolding on_notices on_notice push step
  on_notices_lem [] w v = (sym (append-nil (given w)), v, refl)
  on_notices_lem (n ∷ ns) w v =
      let (v', more) = step-Keeps w (send_event (serialize (notice_object n))) v in
      let (all, v'', _) = on_notices_lem ns (send (serialize (notice_object n)) w) v' in
      let (_, _, same) = on_notices_lem ns w v in
      (
        all
            ∙ ap (λ l. l ++ map (λ n. serialize (notice_object n)) ns) more
            ∙ append_assoc (given w) (serialize (notice_object n) ∷ []) _,
        v'',
        same,
      )
