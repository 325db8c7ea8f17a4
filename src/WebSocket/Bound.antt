-- ===== src/WebSocket/Bound.antt =====
-- The queue of a bridge in any run.
use code_bridge.Base.{
  String, length-append, suc, ℕ, ◌≤◌, ◌≡◌, refl, ap, ◌∙◌, false, Option, none, some, List, [], ◌∷◌,
  arith, length,
}
use code_bridge.Constants.{buffer_limit}
use code_bridge.Protocol.{BridgeEvent}
use code_bridge.WebSocket.Redact.{validate_and_redact}
use code_bridge.WebSocket.{
  Bridge, Frame, Page, auth, hello, hello_message, new, send, send_safe, send_raw, enqueue, shift,
  drain, report_dropped, flush_buffer, send_hello, start_heartbeat, on_open, connect, disconnect,
  set_control_handler, on_error, on_close, handle_incoming, handled, ping_fires, timeout_fires,
  reconnect_fires, connect_rejected,
}
use code_bridge.WebSocket.Events.{Event, step, run, sends, socket_opened}

abbrev pub Fits : Bridge → Type 0
Fits b = length b.buffer ≤ buffer_limit

shift_one : (xs : List BridgeEvent) → buffer_limit ≤ length xs → suc (length (shift xs)) ≡ length xs
shift_one [] h = absurd (omega arith)
shift_one (x ∷ xs) h = refl

enqueue-Fits : (e : BridgeEvent) (b : Bridge) → Fits b → Fits (enqueue e b)
unfolding enqueue
enqueue-Fits e b h = ground (
  arith,
  shift_one b.buffer,
  length-append (shift b.buffer) (e ∷ []),
  length-append b.buffer (e ∷ []),
)

send_safe-Fits : (o : Option BridgeEvent) (b : Bridge) → Fits b → Fits (send_safe o b)
unfolding send_safe
send_safe-Fits none b h = h
send_safe-Fits (some e) b h = ground (arith, enqueue-Fits e b h)

buffer-send_raw : (f : Frame) (b : Bridge) → (send_raw f b).buffer ≡ b.buffer
unfolding send_raw
buffer-send_raw f b = ground arith

buffer-send_hello : (page : Option Page) (b : Bridge) → (send_hello page b).buffer ≡ b.buffer
unfolding send_hello
buffer-send_hello page b = ground (arith, buffer-send_raw (hello (hello_message page b)) b)

buffer-drain : (es : List BridgeEvent) (b : Bridge) → (drain es b).buffer ≡ []
unfolding drain
buffer-drain [] b = refl
buffer-drain (e ∷ es) b = buffer-drain es _

flush_buffer-Fits : (b : Bridge) → Fits b → Fits (flush_buffer b)
unfolding flush_buffer report_dropped
flush_buffer-Fits b h = ground (arith, buffer-drain b.buffer b)

on_open-Fits : (now : ℕ) (page : Option Page) (b : Bridge) → Fits b → Fits (on_open now page b)
unfolding on_open start_heartbeat
on_open-Fits now page b h =
    let b₂ = start_heartbeat now (record b { reconnect_delay = 1000; hello_sent = false }) in
    let b₃ = send_raw (auth b.secret) b₂ in
    let same = buffer-send_hello page b₃ ∙ buffer-send_raw (auth b.secret) b₂ in
    flush_buffer-Fits (send_hello page b₃) (omega (arith, ap length same))

step-Fits : (now : ℕ) (e : Event) (b : Bridge) → Fits b → Fits (step now e b)
unfolding step send connect disconnect set_control_handler on_error on_close handle_incoming handled
    ping_fires timeout_fires reconnect_fires connect_rejected
step-Fits now (sends ev) b h = send_safe-Fits (validate_and_redact ev) b h
step-Fits now (socket_opened page) b h = on_open-Fits now page _ h
step-Fits now _ b h = ground arith

run-Fits : (es : List (ℕ × Event)) (b : Bridge) → Fits b → Fits (run es b)
unfolding run
run-Fits [] b h = h
run-Fits ((now, e) ∷ es) b h = run-Fits es (step now e b) (step-Fits now e b h)

-- Whatever happens to a new bridge, its queue never holds more than 200 events.
pub queue_bound :
    (secret : String) (capabilities : List String) (platform : String) (project_id : Option String)
    (es : List (ℕ × Event))
    → length (run es (new secret capabilities platform project_id)).buffer ≤ buffer_limit
queue_bound secret capabilities platform project_id es =
    run-Fits es (new secret capabilities platform project_id) (unfold new in omega arith)
