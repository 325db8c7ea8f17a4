-- ===== src/WebSocket.antt =====
-- src/websocket.ts: the connection of a bridge to its host. The time is an argument of what sets
-- a timer, a timer is the time at which it is due, and `sent` logs what is handed to the socket.
pub mod Redact
pub mod Events
pub mod Timers
pub mod Delivery
pub mod Backoff
pub mod Heartbeat
pub mod Reopening
pub mod Privacy
pub mod Bound
mod Tests
use code_bridge.Base.{
  ℕ, zero, suc, ◌+◌, ◌*◌, min, String, Bool, true, false, Option, none, some, List, [], ◌∷◌, ◌++◌,
  ◌==◌, not, if◌then◌else◌, leb, ltb, length,
}
use code_bridge.Constants.{
  protocol_version, heartbeat_interval_ms, heartbeat_timeout_ms, reconnect_initial_delay_ms,
  reconnect_max_delay_ms, buffer_limit,
}
use code_bridge.Js.Value.{Value, get_field, string, undefined}
use code_bridge.Protocol.{BridgeEvent}
pub use code_bridge.Socket.{ReadyState, connecting, opened, closing, closed, is_open, close_ws}
use Redact.{validate_and_redact}

pub record Hello : Type 0 where
  pub capabilities : List String
  pub platform : String
  pub project_id : Option String
  pub protocol : ℕ
  pub url : Option String
  pub route : Option String

-- What a handler of control requests ends in: a result, or an error's message.
pub data Outcome : Type 0 where
  returned : Value → Outcome
  threw : String → Outcome

-- What is serialised and handed to the socket.
pub data Frame : Type 0 where
  auth : String → Frame
  hello : Hello → Frame
  event : BridgeEvent → Frame
  drop_count : ℕ → Frame
  ping pong : Frame
  control_result : Value → Outcome → Frame

-- `window.location`, where there is a window
pub record Page : Type 0 where
  pub href : String
  pub pathname : String

pub record Bridge : Type 0 where
  pub secret : String
  pub capabilities : List String
  pub platform : String
  pub project_id : Option String
  pub ws : Option ReadyState
  pub reconnect_timeout : Option ℕ
  pub reconnect_delay : ℕ
  pub heartbeat_interval : Option ℕ
  pub heartbeat_timeout : Option ℕ
  pub hello_sent : Bool
  pub has_handler : Bool
  pub buffer : List BridgeEvent
  pub dropped : ℕ
  pub sent : List Frame
  pub requests : List Value

-- The constructor.
unfoldable pub new : String → List String → String → Option String → Bridge
new secret capabilities platform project_id = record {
  secret = secret;
  capabilities = capabilities;
  platform = platform;
  project_id = project_id;
  ws = none;
  reconnect_timeout = none;
  reconnect_delay = reconnect_initial_delay_ms;
  heartbeat_interval = none;
  heartbeat_timeout = none;
  hello_sent = false;
  has_handler = false;
  buffer = [];
  dropped = 0;
  sent = [];
  requests = [];
}

abbrev pub emit : Frame → Bridge → Bridge
emit f b = record b { sent = b.sent ++ f ∷ [] }

unfoldable pub send_raw : Frame → Bridge → Bridge
send_raw f b = if is_open b.ws then emit f b else b

-- `window` is there only with a page.
unfoldable pub hello_message : Option Page → Bridge → Hello
hello_message page b = record {
  capabilities = b.capabilities;
  platform = b.platform;
  project_id = b.project_id;
  protocol = protocol_version;
  url = if b.platform == "web" then (elim page [ none ↦ none | some p ↦ some p.href ]) else none;
  route =
      if b.platform == "web" then (elim page [ none ↦ none | some p ↦ some p.pathname ]) else none;
}

unfoldable pub send_hello : Option Page → Bridge → Bridge
send_hello page b =
    if b.hello_sent
    then b
    else record (send_raw (hello (hello_message page b)) b) { hello_sent = true }

-- `buffer.shift()`
abbrev pub shift {ℓ} : {A : Type ℓ} → List A → List A
shift [] = []
shift (x ∷ xs) = xs

unfoldable pub enqueue : BridgeEvent → Bridge → Bridge
enqueue ev b =
    if leb buffer_limit (length b.buffer)
    then record b { buffer = shift b.buffer ++ ev ∷ []; dropped = b.dropped + 1 }
    else record b { buffer = b.buffer ++ ev ∷ [] }

unfoldable pub send_safe : Option BridgeEvent → Bridge → Bridge
send_safe none b = b
send_safe (some safe) b = if is_open b.ws then emit (event safe) b else enqueue safe b

unfoldable pub send : BridgeEvent → Bridge → Bridge
send ev b = send_safe (validate_and_redact ev) b

-- The loop of `flushBuffer` over what is left in the buffer.
unfoldable pub drain : List BridgeEvent → Bridge → Bridge
drain [] b = record b { buffer = [] }
drain (ev ∷ evs) b = drain evs (emit (event ev) b)

unfoldable pub report_dropped : Bridge → Bridge
report_dropped b =
    if ltb 0 b.dropped then record (emit (drop_count b.dropped) b) { dropped = 0 } else b

unfoldable pub flush_buffer : Bridge → Bridge
flush_buffer b = if is_open b.ws then report_dropped (drain b.buffer b) else b

unfoldable pub stop_heartbeat : Bridge → Bridge
stop_heartbeat b = record b { heartbeat_interval = none; heartbeat_timeout = none }

unfoldable pub start_heartbeat : ℕ → Bridge → Bridge
unfolding stop_heartbeat
start_heartbeat now b = record (stop_heartbeat b) {
  heartbeat_interval = some (now + heartbeat_interval_ms);
}

unfoldable pub set_heartbeat_timeout : ℕ → Bridge → Bridge
set_heartbeat_timeout now b = record b { heartbeat_timeout = some (now + heartbeat_timeout_ms) }

unfoldable pub reset_heartbeat_timeout : ℕ → Bridge → Bridge
unfolding set_heartbeat_timeout
reset_heartbeat_timeout now b = elim b.heartbeat_timeout [
  | none ↦ b
  | some due ↦ set_heartbeat_timeout now b
]

-- `setInterval` calls `sendPing` and is due again an interval later.
unfoldable pub ping_fires : ℕ → Bridge → Bridge
unfolding send_raw set_heartbeat_timeout
ping_fires now b =
    set_heartbeat_timeout now
      (send_raw ping (record b { heartbeat_interval = some (now + heartbeat_interval_ms) }))

-- The callback of the heartbeat timeout. The field keeps the timer that has fired.
unfoldable pub timeout_fires : Bridge → Bridge
timeout_fires b = record b { ws = close_ws b.ws }

unfoldable pub schedule_reconnect : ℕ → Bridge → Bridge
schedule_reconnect now b = elim b.reconnect_timeout [
  | some due ↦ b
  | none ↦ record b { reconnect_timeout = some (now + b.reconnect_delay) }
]

-- `connect`, as far as the creation of the socket, which may throw.
unfoldable pub connect : Bool → Bridge → Bridge
connect created b = if created then record b { ws = some connecting } else b

unfoldable pub on_open : ℕ → Option Page → Bridge → Bridge
on_open now page b =
    let b₁ : Bridge = record b { reconnect_delay = 1000; hello_sent = false } in
    let b₂ = start_heartbeat now b₁ in
    let b₃ = send_raw (auth b.secret) b₂ in flush_buffer (send_hello page b₃)

unfoldable pub on_error : Bridge → Bridge
unfolding stop_heartbeat
on_error b = stop_heartbeat b

unfoldable pub on_close : ℕ → Bridge → Bridge
unfolding stop_heartbeat schedule_reconnect
on_close now b = schedule_reconnect now (record (stop_heartbeat b) { hello_sent = false })

-- The timer of `scheduleReconnect`, and the `catch` of the attempt that it makes.
unfoldable pub reconnect_fires : Bool → Bridge → Bridge
unfolding connect
reconnect_fires created b = connect created (record b { reconnect_timeout = none })

unfoldable pub connect_rejected : Bridge → Bridge
connect_rejected b = record b {
  reconnect_delay = min (b.reconnect_delay * 2) reconnect_max_delay_ms;
}

unfoldable pub disconnect : Bridge → Bridge
unfolding stop_heartbeat
disconnect b = record (stop_heartbeat (record b { reconnect_timeout = none })) { ws = none }

unfoldable pub set_control_handler : Bridge → Bridge
set_control_handler b = record b { has_handler = true }

-- `msg.type === tag`
abbrev pub has_type : String → Value → Bool
has_type tag msg = elim (get_field "type" msg) [ string s ↦ s == tag | _ ↦ false ]

-- A parsed message; a text that does not parse is `undefined`, and is ignored too. A control
-- request is handed to the handler, which answers later.
unfoldable pub handle_incoming : ℕ → Value → Bridge → Bridge
unfolding reset_heartbeat_timeout send_raw
handle_incoming now msg b =
    if has_type "pong" msg
    then reset_heartbeat_timeout now b
    else if has_type "ping" msg
    then send_raw pong b
    else if has_type "control_request" msg
    then (if b.has_handler then record b { requests = b.requests ++ msg ∷ [] } else b)
    else b

-- `sendControlResult`, when the handler of the request with this id is done.
unfoldable pub handled : Value → Outcome → Bridge → Bridge
unfolding send_raw
handled id outcome b = send_raw (control_result id outcome) b
