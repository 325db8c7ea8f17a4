-- ===== src/WebSocket/Timers.antt =====
-- The timing of a bridge, apart from its queue: what each event does to the timers and the socket.
use code_bridge.Base.{
  ℕ, ◌+◌, ◌*◌, min, ◌≡◌, refl, ◌∙◌, false, Option, none, some, List, [], ◌∷◌, arith, if◌then◌else◌,
}
use code_bridge.Constants.{heartbeat_interval_ms, heartbeat_timeout_ms, reconnect_max_delay_ms}
use code_bridge.Protocol.{BridgeEvent}
use code_bridge.WebSocket.Redact.{validate_and_redact}
use code_bridge.WebSocket.{
  ReadyState, connecting, opened, closed, Frame, Page, auth, hello, Bridge, close_ws, has_type,
  hello_message, send, send_safe, send_raw, connect, disconnect, set_control_handler, on_open,
  on_error, on_close, handle_incoming, handled, ping_fires, timeout_fires, reconnect_fires,
  connect_rejected, start_heartbeat, enqueue, flush_buffer, drain, report_dropped, send_hello,
}
use code_bridge.WebSocket.Events.{
  Event, step, with_state, sends, connects, disconnects, sets_handler, socket_opened, socket_closed,
  socket_failed, receives, answers, ping_due, timeout_due, reconnect_due, attempt_rejected,
}

pub record Timers : Type 0 where
  pub ws : Option ReadyState
  pub reconnect_timeout : Option ℕ
  pub reconnect_delay : ℕ
  pub heartbeat_interval : Option ℕ
  pub heartbeat_timeout : Option ℕ

abbrev pub timers : Bridge → Timers
timers b = record {
  ws = b.ws;
  reconnect_timeout = b.reconnect_timeout;
  reconnect_delay = b.reconnect_delay;
  heartbeat_interval = b.heartbeat_interval;
  heartbeat_timeout = b.heartbeat_timeout;
}

abbrev pub rearmed : ℕ → Option ℕ → Option ℕ
rearmed now none = none
rearmed now (some due) = some (now + heartbeat_timeout_ms)

abbrev pub scheduled : ℕ → ℕ → Option ℕ → Option ℕ
scheduled now delay none = some (now + delay)
scheduled now delay (some due) = some due

abbrev pub next : ℕ → Event → Timers → Timers
next now connects t = record t { ws = some connecting }
next now disconnects t = record t {
  ws = none;
  reconnect_timeout = none;
  heartbeat_interval = none;
  heartbeat_timeout = none;
}
next now (socket_opened page) t = record t {
  ws = with_state t.ws opened;
  reconnect_delay = 1000;
  heartbeat_interval = some (now + heartbeat_interval_ms);
  heartbeat_timeout = none;
}
next now (socket_closed current) t = record t {
  ws = if current then with_state t.ws closed else t.ws;
  heartbeat_interval = none;
  heartbeat_timeout = none;
  reconnect_timeout = scheduled now t.reconnect_delay t.reconnect_timeout;
}
next now socket_failed t = record t { heartbeat_interval = none; heartbeat_timeout = none }
next now (receives msg) t = record t {
  heartbeat_timeout =
      if has_type "pong" msg then rearmed now t.heartbeat_timeout else t.heartbeat_timeout;
}
next now ping_due t = record t {
  heartbeat_interval = some (now + heartbeat_interval_ms);
  heartbeat_timeout = some (now + heartbeat_timeout_ms);
}
next now timeout_due t = record t { ws = close_ws t.ws }
next now (reconnect_due created) t = record t {
  reconnect_timeout = none;
  ws = if created then some connecting else t.ws;
}
next now attempt_rejected t = record t {
  reconnect_delay = min (t.reconnect_delay * 2) reconnect_max_delay_ms;
}
next now (sends ev) t = t
next now (answers id outcome) t = t
next now sets_handler t = t

timers-send_raw : (f : Frame) (b : Bridge) → timers (send_raw f b) ≡ timers b
unfolding send_raw
timers-send_raw f b = ground arith

timers-send_safe : (o : Option BridgeEvent) (b : Bridge) → timers (send_safe o b) ≡ timers b
unfolding send_safe enqueue
timers-send_safe none b = refl
timers-send_safe (some e) b = ground arith

timers-send_hello : (page : Option Page) (b : Bridge) → timers (send_hello page b) ≡ timers b
unfolding send_hello
timers-send_hello page b = ground (arith, timers-send_raw (hello (hello_message page b)) b)

timers-drain : (es : List BridgeEvent) (b : Bridge) → timers (drain es b) ≡ timers b
unfolding drain
timers-drain [] b = refl
timers-drain (e ∷ es) b = timers-drain es _

timers-report_dropped : (b : Bridge) → timers (report_dropped b) ≡ timers b
unfolding report_dropped
timers-report_dropped b = ground arith

timers-flush_buffer : (b : Bridge) → timers (flush_buffer b) ≡ timers b
unfolding flush_buffer
timers-flush_buffer b =
    ground (arith, timers-drain b.buffer b, timers-report_dropped (drain b.buffer b))

timers-on_open :
    (now : ℕ) (page : Option Page) (b : Bridge)
    → timers (on_open now page b) ≡ record (timers b) {
      reconnect_delay = 1000;
      heartbeat_interval = some (now + heartbeat_interval_ms);
      heartbeat_timeout = none;
    }
unfolding on_open start_heartbeat
timers-on_open now page b =
    let b₂ = start_heartbeat now (record b { reconnect_delay = 1000; hello_sent = false }) in
    let b₃ = send_raw (auth b.secret) b₂ in
    timers-flush_buffer (send_hello page b₃)
    ∙ timers-send_hello page b₃
    ∙ timers-send_raw (auth b.secret) b₂

-- The timers and the socket's state after an event depend on nothing but those before it, as
-- `next` says.
pub timers-step : (now : ℕ) (e : Event) (b : Bridge) → timers (step now e b) ≡ next now e (timers b)
unfolding step send connect disconnect set_control_handler on_error on_close handle_incoming handled
    ping_fires timeout_fires reconnect_fires connect_rejected
timers-step now (socket_opened page) b = timers-on_open now page _
timers-step now (sends ev) b = timers-send_safe (validate_and_redact ev) b
timers-step now (answers id outcome) b = timers-send_raw _ b
timers-step now _ b = ground arith
