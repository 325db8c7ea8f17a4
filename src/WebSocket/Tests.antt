-- ===== src/WebSocket/Tests.antt =====
-- src/websocket.ts on concrete runs.
use code_bridge.Base.{
  ℕ, ◌+◌, ◌-◌, ◌≤◌, min, ◌≡◌, refl, true, false, none, some, List, [], ◌∷◌, ◌++◌, map, length, last,
  arith,
}
use code_bridge.Constants.{buffer_limit, reconnect_initial_delay_ms, reconnect_max_delay_ms}
use code_bridge.Js.Value.{nil, cons, object, field, end, string}
use code_bridge.Protocol.{BridgeEvent, plain}
use code_bridge.WebSocket.Redact.{redacted}
use code_bridge.WebSocket.{
  Bridge, event, connecting, connect, new, on_open, start_heartbeat, send_raw, send_hello,
  flush_buffer, drain, report_dropped,
}
use code_bridge.WebSocket.Events.{
  Event, step, run, disconnects, socket_opened, socket_closed, ping_due, timeout_due, reconnect_due,
  attempt_rejected, sends,
}
use code_bridge.WebSocket.Delivery.{
  send_all, safe_events, greeting, drop_note, dials, offline_delivery,
}
use code_bridge.WebSocket.Backoff.{failures, doubled, backoff}
use code_bridge.WebSocket.Heartbeat.{Enabled, begins, happens, heartbeat_never_times_out}
use code_bridge.WebSocket.Reopening.{disconnect_reconnects}
use code_bridge.WebSocket.Bound.{queue_bound}

abbrev fresh : Bridge
fresh = new "dev-secret" ("console" ∷ []) "node" none

abbrev dialling : Bridge
dialling = connect true fresh

abbrev log_event : BridgeEvent
log_event = plain "log" "info" [] 7

abbrev secret_event : BridgeEvent
secret_event = record log_event {
  args =
      some (cons (object (field "userToken" (string "abc") (field "name" (string "x") end))) nil);
}

clean_event : BridgeEvent
clean_event = record log_event {
  args = some (cons (object (field "userToken" redacted (field "name" (string "x") end))) nil);
}

offline_delivery_example :
    let after =
      step 9
        (socket_opened none)
        (send_all (log_event ∷ []) (step 5 (dials false) (send_all (secret_event ∷ []) fresh))) in
    let safe = safe_events (secret_event ∷ log_event ∷ []) in
    (after.sent
      ≡ fresh.sent
        ++ greeting none fresh
        ++ map event (last buffer_limit safe)
        ++ drop_note (length safe - buffer_limit))
    × (after.buffer ≡ [])
    × (after.dropped ≡ 0)
unfolding new
offline_delivery_example =
    offline_delivery fresh (secret_event ∷ []) (log_event ∷ []) 5 9 false none refl refl refl

abbrev failing : List (ℕ × Event)
failing = (1, socket_closed true) ∷ (1001, reconnect_due true) ∷ (1002, attempt_rejected) ∷ []

backoff_example :
    (run ((0, socket_opened none) ∷ failing) dialling).reconnect_delay
    ≡ min (doubled (failures failing) reconnect_initial_delay_ms) reconnect_max_delay_ms
backoff_example = backoff dialling 0 none failing tt

after_ping : Bridge
after_ping = step 15010 ping_due (step 10 (socket_opened none) dialling)

heartbeat_never_times_out_example : ¬ Enabled 60000 timeout_due after_ping
unfolding new connect after_ping step on_open start_heartbeat send_raw send_hello flush_buffer drain
    report_dropped
heartbeat_never_times_out_example =
    heartbeat_never_times_out 60000 {start = dialling} (refl, refl)
      (happens 15010 ping_due (happens 10 (socket_opened none) (begins {now = 0}) (omega arith) tt)
        (omega arith) (omega arith))

disconnect_reconnects_example :
    let left = run ((1, disconnects) ∷ []) dialling in
    let told = run ((1, disconnects) ∷ (2, socket_closed false) ∷ []) dialling in
    let back =
      run
        ((1, disconnects) ∷ (2, socket_closed false) ∷ (1002, reconnect_due true) ∷ [])
        dialling in
    (left.ws ≡ none)
    × (left.reconnect_timeout ≡ none)
    × (told.reconnect_timeout ≡ some (2 + dialling.reconnect_delay))
    × (back.ws ≡ some connecting)
disconnect_reconnects_example = disconnect_reconnects dialling 1 2 1002

queue_bound_example : length (run ((1, sends log_event) ∷ failing) fresh).buffer ≤ buffer_limit
queue_bound_example =
    queue_bound "dev-secret" ("console" ∷ []) "node" none ((1, sends log_event) ∷ failing)
