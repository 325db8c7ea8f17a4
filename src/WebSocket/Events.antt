-- ===== src/WebSocket/Events.antt =====
-- What can happen to a bridge, in any order: calls of its methods, events of its sockets, timers.
-- A close event can come from a socket that the bridge has let go, so it says whose it is.
use code_bridge.Base.{ℕ, Bool, true, Option, none, some, List, [], ◌∷◌, if◌then◌else◌}
use code_bridge.Js.Value.{Value}
use code_bridge.Protocol.{BridgeEvent}
use code_bridge.WebSocket.{
  Outcome, ReadyState, opened, closed, Page, Bridge, send, ping_fires, timeout_fires, connect,
  on_open, on_error, on_close, reconnect_fires, connect_rejected, disconnect, set_control_handler,
  handle_incoming, handled,
}

pub data Event : Type 0 where
  sends : BridgeEvent → Event
  connects disconnects sets_handler : Event
  socket_opened : Option Page → Event
  socket_closed : Bool → Event
  socket_failed : Event
  receives : Value → Event
  answers : Value → Outcome → Event
  ping_due timeout_due : Event
  reconnect_due : Bool → Event
  attempt_rejected : Event

abbrev pub with_state : Option ReadyState → ReadyState → Option ReadyState
with_state none s = none
with_state (some _) s = some s

unfoldable pub step : ℕ → Event → Bridge → Bridge
step now (sends ev) b = send ev b
step now connects b = connect true b
step now disconnects b = disconnect b
step now sets_handler b = set_control_handler b
step now (socket_opened page) b = on_open now page (record b { ws = with_state b.ws opened })
step now (socket_closed current) b =
    on_close now (record b { ws = if current then with_state b.ws closed else b.ws })
step now socket_failed b = on_error b
step now (receives msg) b = handle_incoming now msg b
step now (answers id outcome) b = handled id outcome b
step now ping_due b = ping_fires now b
step now timeout_due b = timeout_fires b
step now (reconnect_due created) b = reconnect_fires created b
step now attempt_rejected b = connect_rejected b

unfoldable pub run : List (ℕ × Event) → Bridge → Bridge
unfolding step
run [] b = b
run ((now, e) ∷ es) b = run es (step now e b)
