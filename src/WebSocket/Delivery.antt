-- ===== src/WebSocket/Delivery.antt =====
-- What becomes of the events that are sent while there is no open socket.
use mathlib.Core.List.{append_assoc, append-nil}
use mathlib.Core.Path.{ap₂}
use native.Mathlib.Nat.{zero-add}
use code_bridge.Base.{
  if-false, if-true, Bool-cases, leb_iff, inl, inr, ℕ, ◌+◌, ◌-◌, ◌≤◌, ◌≡◌, refl, sym, subst, ap,
  ◌∙◌, Bool, true, false, Option, none, some, List, [], ◌∷◌, ◌++◌, map, arith, ltb, leb,
  if◌then◌else◌, length, last, drop, length-append, last_all, length-last, last-append,
}
use code_bridge.Constants.{heartbeat_interval_ms, buffer_limit}
use code_bridge.Protocol.{BridgeEvent}
use code_bridge.WebSocket.Redact.{validate_and_redact}
use code_bridge.WebSocket.Events.{Event, step, socket_opened, with_state, connects, reconnect_due}
use code_bridge.WebSocket.{
  connecting, Frame, auth, hello, event, drop_count, opened, Page, Bridge, is_open, emit, shift,
  enqueue, send, send_safe, drain, flush_buffer, report_dropped, on_open, send_raw, send_hello,
  hello_message, start_heartbeat, connect, reconnect_fires,
}

unfoldable pub send_all : List BridgeEvent → Bridge → Bridge
send_all [] b = b
send_all (e ∷ es) b = send_all es (send e b)

abbrev pub opt_cons {ℓ} : {A : Type ℓ} → Option A → List A → List A
opt_cons none xs = xs
opt_cons (some x) xs = x ∷ xs

-- The events that are not dropped as malformed, redacted and truncated.
pub safe_events : List BridgeEvent → List BridgeEvent
safe_events [] = []
safe_events (e ∷ es) = opt_cons (validate_and_redact e) (safe_events es)

-- The bridge that has queued these events after those in its buffer.
abbrev pub queued : List BridgeEvent → Bridge → Bridge
queued xs b = record b {
  buffer = last buffer_limit (b.buffer ++ xs);
  dropped = b.dropped + (length (b.buffer ++ xs) - buffer_limit);
}

shift-append :
    (xs : List BridgeEvent) (e : BridgeEvent)
    → buffer_limit ≤ length xs
    → shift xs ++ e ∷ [] ≡ drop 1 (xs ++ e ∷ [])
shift-append [] e h = absurd (omega arith)
shift-append (x ∷ xs) e h = refl

-- Only the queue of a bridge is given anew.
abbrev with_queue : Bridge → List BridgeEvent → ℕ → Bridge
with_queue b buffer dropped = record b { buffer = buffer; dropped = dropped }

enqueue-queued :
    (e : BridgeEvent) (b : Bridge)
    → length b.buffer ≤ buffer_limit
    → enqueue e b ≡ queued (e ∷ []) b
unfolding enqueue
enqueue-queued e b h =
    let all = b.buffer ++ e ∷ [] in
    let more : length all ≡ length b.buffer + 1 = length-append b.buffer (e ∷ []) in
    elim (Bool-cases (leb buffer_limit (length b.buffer))) [
      | inl full ↦
          let at_limit : buffer_limit ≤ length b.buffer = (leb_iff _ _).0 full in
          let one : ◌≡◌ {A = ℕ} 1 (length all - buffer_limit) = omega arith in
          rw full (
            ap₂ (with_queue b) (shift-append b.buffer e at_limit ∙ ap (λ k. drop k all) one)
              (ap (◌+◌ b.dropped) one))
      | inr room ↦
          let below : length all ≤ buffer_limit = ground arith in
          rw room (ap₂ (with_queue b) (sym (last_all buffer_limit all below)) (omega arith))
    ]

queued-queued :
    (xs ys : List BridgeEvent) (b : Bridge) → queued ys (queued xs b) ≡ queued (xs ++ ys) b
queued-queued xs ys b =
    let front = b.buffer ++ xs in
    let whole : front ++ ys ≡ b.buffer ++ (xs ++ ys) = append_assoc b.buffer xs ys in
    ap₂ (with_queue b) (last-append buffer_limit front ys ∙ ap (last buffer_limit) whole) (
      omega (
        arith,
        ap length whole,
        length-last buffer_limit front,
        length-append (last buffer_limit front) ys,
        length-append front ys,
      ))

queued_nothing : (b : Bridge) → length b.buffer ≤ buffer_limit → b ≡ queued [] b
queued_nothing b h =
    let same : b.buffer ++ [] ≡ b.buffer = append-nil b.buffer in
    ap₂ (with_queue b) (sym (ap (last buffer_limit) same ∙ last_all buffer_limit b.buffer h))
      (omega (arith, ap length same))

send_safe-queued :
    (safe : Option BridgeEvent) (b : Bridge)
    → is_open b.ws ≡ false
    → length b.buffer ≤ buffer_limit
    → send_safe safe b ≡ queued (opt_cons safe []) b
unfolding send_safe
send_safe-queued none b shut h = queued_nothing b h
send_safe-queued (some e) b shut h = rw shut (enqueue-queued e b h)

opt_cons-append {ℓ} :
    {A : Type ℓ} (o : Option A) (xs : List A) → opt_cons o [] ++ xs ≡ opt_cons o xs
opt_cons-append none xs = refl
opt_cons-append (some x) xs = refl

opt_cons-then {ℓ} :
    {A : Type ℓ} (o : Option A) (xs ys : List A) → opt_cons o xs ++ ys ≡ opt_cons o (xs ++ ys)
opt_cons-then none xs ys = refl
opt_cons-then (some x) xs ys = refl

queued-fits : (xs : List BridgeEvent) (b : Bridge) → length (queued xs b).buffer ≤ buffer_limit
queued-fits xs b = omega (arith, length-last buffer_limit (b.buffer ++ xs))

-- Sending while the socket is not open only fills the queue: it keeps the last events, in their
-- order, and counts those that fall out at the front.
pub send_all-queued :
    (es : List BridgeEvent) (b : Bridge)
    → is_open b.ws ≡ false
    → length b.buffer ≤ buffer_limit
    → send_all es b ≡ queued (safe_events es) b
unfolding send_all safe_events send
send_all-queued [] b shut h = queued_nothing b h
send_all-queued (e ∷ es) b shut h =
    let safe = validate_and_redact e in
    let now = opt_cons safe [] in
    ap (send_all es) (send_safe-queued safe b shut h)
    ∙ send_all-queued es (queued now b) shut (queued-fits now b)
    ∙ queued-queued now (safe_events es) b
    ∙ ap (λ xs. queued xs b) (opt_cons-append safe (safe_events es))

drain-sent :
    (es : List BridgeEvent) (b : Bridge)
    → drain es b ≡ record b { sent = b.sent ++ map event es; buffer = [] }
unfolding drain
drain-sent [] b = ap (λ fs. record b { sent = fs; buffer = [] }) (sym (append-nil b.sent))
drain-sent (e ∷ es) b =
    drain-sent es (emit (event e) b)
    ∙ ap (λ fs. record b { sent = fs; buffer = [] })
        (append_assoc b.sent (event e ∷ []) (map event es))

-- The note on dropped events, if there are any.
abbrev pub drop_note : ℕ → List Frame
drop_note n = if ltb 0 n then drop_count n ∷ [] else []

report_dropped-sent :
    (b : Bridge) → report_dropped b ≡ record b { sent = b.sent ++ drop_note b.dropped; dropped = 0 }
unfolding report_dropped
report_dropped-sent b = elim (Bool-cases (ltb 0 b.dropped)) [
  | inl e ↦ rw e refl
  | inr e ↦
      rw e
        (ap₂ (λ fs n. record b { sent = fs; dropped = n }) (sym (append-nil b.sent)) (ground arith))
]

flush_buffer-sent :
    (b : Bridge)
    → is_open b.ws ≡ true
    → flush_buffer b ≡ record b {
      sent = (b.sent ++ map event b.buffer) ++ drop_note b.dropped;
      buffer = [];
      dropped = 0;
    }
unfolding flush_buffer
flush_buffer-sent b up =
    if-true (is_open b.ws) _ b up
    ∙ ap report_dropped (drain-sent b.buffer b)
    ∙ report_dropped-sent (record b { sent = b.sent ++ map event b.buffer; buffer = [] })

send_raw-open : (f : Frame) (b : Bridge) → is_open b.ws ≡ true → send_raw f b ≡ emit f b
unfolding send_raw
send_raw-open f b up = if-true (is_open b.ws) _ b up

send_hello-open :
    (page : Option Page) (b : Bridge)
    → is_open b.ws ≡ true
    → b.hello_sent ≡ false
    → send_hello page b ≡ record (emit (hello (hello_message page b)) b) { hello_sent = true }
unfolding send_hello
send_hello-open page b up first =
    if-false b.hello_sent b _ first
    ∙ ap (λ (c : Bridge). record c { hello_sent = true })
        (send_raw-open (hello (hello_message page b)) b up)

-- What the bridge hands to its socket when it opens, before what is in its queue.
abbrev pub greeting : Option Page → Bridge → List Frame
greeting page b = auth b.secret ∷ hello (hello_message page b) ∷ []

-- The bridge once its socket has opened.
abbrev pub opened_at : ℕ → Option Page → Bridge → Bridge
opened_at now page b = record b {
  reconnect_delay = 1000;
  heartbeat_interval = some (now + heartbeat_interval_ms);
  heartbeat_timeout = none;
  hello_sent = true;
  buffer = [];
  dropped = 0;
  sent = b.sent ++ greeting page b ++ map event b.buffer ++ drop_note b.dropped;
}

on_open-opened_at :
    (now : ℕ) (page : Option Page) (b : Bridge)
    → is_open b.ws ≡ true
    → on_open now page b ≡ opened_at now page b
unfolding on_open start_heartbeat hello_message
on_open-opened_at now page b up =
    let b₁ : Bridge = record b { reconnect_delay = 1000; hello_sent = false } in
    let b₂ = start_heartbeat now b₁ in
    let b₃ : Bridge = emit (auth b.secret) b₂ in
    let b₄ : Bridge = record (emit (hello (hello_message page b₃)) b₃) { hello_sent = true } in
    ap (λ c. flush_buffer (send_hello page c)) (send_raw-open (auth b.secret) b₂ up)
    ∙ ap flush_buffer (send_hello-open page b₃ up refl)
    ∙ flush_buffer-sent b₄ up
    ∙ ap
        (λ fs. record b₄ {
          sent = (fs ++ map event b.buffer) ++ drop_note b.dropped;
          buffer = [];
          dropped = 0;
        })
        (append_assoc b.sent (auth b.secret ∷ []) (hello (hello_message page b) ∷ []))

-- What a bridge with these events in its queue delivers when its socket opens.
queue-delivered :
    (b : Bridge) (xs : List BridgeEvent) (now : ℕ) (page : Option Page)
    → b.ws ≡ some connecting
    → b.buffer ≡ []
    → b.dropped ≡ 0
    → let after = step now (socket_opened page) (queued xs b) in
      (after.sent
        ≡ b.sent
          ++ greeting page b
          ++ map event (last buffer_limit xs)
          ++ drop_note (length xs - buffer_limit))
      × (after.buffer ≡ [])
      × (after.dropped ≡ 0)
unfolding step hello_message
queue-delivered b xs now page up none_queued none_dropped =
    let open_queue : Bridge = record (queued xs b) { ws = some opened } in
    let whole : step now (socket_opened page) (queued xs b) ≡ opened_at now page open_queue =
      ap (λ w. on_open now page (record (queued xs b) { ws = with_state w opened })) up
      ∙ on_open-opened_at now page open_queue refl in
    let front = b.sent ++ greeting page b in
    (
      ap (λ (c : Bridge). c.sent) whole
          ∙ ap₂
              (λ buf n.
                (front ++ map event (last buffer_limit (buf ++ xs)))
                ++ drop_note (n + (length (buf ++ xs) - buffer_limit)))
              none_queued none_dropped
          ∙ ap (λ n. (front ++ map event (last buffer_limit xs)) ++ drop_note n)
              (zero-add (length xs - buffer_limit)),
      ap (λ (c : Bridge). c.buffer) whole,
      ap (λ (c : Bridge). c.dropped) whole,
    )

safe_events-append :
    (es fs : List BridgeEvent) → safe_events es ++ safe_events fs ≡ safe_events (es ++ fs)
unfolding safe_events
safe_events-append [] fs = refl
safe_events-append (e ∷ es) fs =
    opt_cons-then (validate_and_redact e) (safe_events es) (safe_events fs)
    ∙ ap (opt_cons (validate_and_redact e)) (safe_events-append es fs)

-- A socket is made by a call of `connect`, or by the timer of a reconnection.
abbrev pub dials : Bool → Event
dials by_timer = if by_timer then reconnect_due true else connects

dials-queued :
    (by_timer : Bool) (t : ℕ) (xs : List BridgeEvent) (b : Bridge)
    → step t (dials by_timer) (queued xs b) ≡ queued xs (step t (dials by_timer) b)
unfolding step reconnect_fires connect
dials-queued true t xs b = refl
dials-queued false t xs b = refl

dials-connecting :
    (by_timer : Bool) (t : ℕ) (b : Bridge) → (step t (dials by_timer) b).ws ≡ some connecting
unfolding step reconnect_fires connect
dials-connecting true t b = refl
dials-connecting false t b = refl

-- All that is sent before the socket opens is in the queue.
all_sent-queued :
    (b : Bridge) (es fs : List BridgeEvent) (t : ℕ) (by_timer : Bool)
    → is_open b.ws ≡ false
    → b.buffer ≡ []
    → send_all fs (step t (dials by_timer) (send_all es b))
      ≡ queued (safe_events (es ++ fs)) (step t (dials by_timer) b)
all_sent-queued b es fs t by_timer shut none_queued =
    let fits : length b.buffer ≤ buffer_limit = omega (arith, ap length none_queued) in
    let b' = step t (dials by_timer) b in
    let before = safe_events es in
    let shut' : is_open b'.ws ≡ false = ap is_open (dials-connecting by_timer t b) in
    ap (λ c. send_all fs (step t (dials by_timer) c)) (send_all-queued es b shut fits)
    ∙ ap (send_all fs) (dials-queued by_timer t before b)
    ∙ send_all-queued fs (queued before b') shut' (queued-fits before b')
    ∙ queued-queued before (safe_events fs) b'
    ∙ ap (λ xs. queued xs b') (safe_events-append es fs)

abbrev Delivers : Option Page → Bridge → List BridgeEvent → Bridge → Type 0
Delivers page b xs after =
    (after.sent
      ≡ b.sent
        ++ greeting page b
        ++ map event (last buffer_limit xs)
        ++ drop_note (length xs - buffer_limit))
    × (after.buffer ≡ [])
    × (after.dropped ≡ 0)

-- Events that are sent while there is no open socket, from an empty queue, some before a socket is
-- made and some while it connects, are delivered when it opens, whether `connect` or the timer of a
-- reconnection made it: after the authentication and the hello frame come the last 200 of those that
-- are well formed, redacted and in their order, and then, if more than 200 were well formed, one note
-- with the number of those that are lost. The queue is empty afterwards.
pub offline_delivery :
    (b : Bridge) (es fs : List BridgeEvent) (t now : ℕ) (by_timer : Bool) (page : Option Page)
    → is_open b.ws ≡ false
    → b.buffer ≡ []
    → b.dropped ≡ 0
    → let after =
        step now (socket_opened page) (send_all fs (step t (dials by_timer) (send_all es b))) in
      let safe = safe_events (es ++ fs) in
      (after.sent
        ≡ b.sent
          ++ greeting page b
          ++ map event (last buffer_limit safe)
          ++ drop_note (length safe - buffer_limit))
      × (after.buffer ≡ [])
      × (after.dropped ≡ 0)
unfolding step reconnect_fires connect hello_message
offline_delivery b es fs t now true page shut none_queued none_dropped =
    subst (Delivers page b (safe_events (es ++ fs)))
      (sym (ap (step now (socket_opened page)) (all_sent-queued b es fs t true shut none_queued)))
      (queue-delivered (step t (dials true) b) (safe_events (es ++ fs)) now page refl none_queued
        none_dropped)
offline_delivery b es fs t now false page shut none_queued none_dropped =
    subst (Delivers page b (safe_events (es ++ fs)))
      (sym (ap (step now (socket_opened page)) (all_sent-queued b es fs t false shut none_queued)))
      (queue-delivered (step t (dials false) b) (safe_events (es ++ fs)) now page refl none_queued
        none_dropped)
