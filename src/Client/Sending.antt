-- ===== src/Client/Sending.antt =====
-- How src/client.ts throttles what it sends.
use code_bridge.Base.{
  leb, ℕ, ◌+◌, ◌≡◌, refl, sym, ap, ◌∙◌, String, Bool, true, false, Option, none, some, List, [],
  ◌∷◌, map, arith, All, Bool-cases, inl, inr, if-true, if-false, if◌then◌else◌,
}
use code_bridge.Protocol.{BridgeEvent, Breadcrumb}
use code_bridge.Platform.{platform_name}
use code_bridge.Throttle.{Throttler, should_allow}
use code_bridge.WebSocket.{Bridge, enqueue, emit, send, send_safe, event}
use code_bridge.WebSocket.Redact.{validate_and_redact}
use code_bridge.WebSocket.Delivery.{send_all}
use code_bridge.Client.{Client, Draft, send_event, bypasses, full_event}

-- Sending drafts at given times, with no bypass.
abbrev pub send_drafts : List (ℕ × Draft) → Client → Client
send_drafts [] c = c
send_drafts ((now, d) ∷ ds) c = send_drafts ds (send_event now d false c)

abbrev pub Quiet : List (ℕ × Draft) → Type 0
Quiet = All (λ (p : ℕ × Draft). bypasses p.1 false ≡ false)

-- The drafts that come no sooner than the delay after the last one of them, or after `last`.
abbrev pub spaced_out : ℕ → ℕ → List (ℕ × Draft) → List (ℕ × Draft)
spaced_out delay last [] = []
spaced_out delay last ((now, d) ∷ ds) =
    let late = (now, d) ∷ spaced_out delay now ds in
    let soon = spaced_out delay last ds in if leb (last + delay) now then late else soon

abbrev given {ℓ} : {A : Type ℓ} → Option A → A → A
given none a = a
given (some b) a = b

-- The event for a draft: what the draft says, or a default, with the time, the platform, the project
-- and the breadcrumbs of the client.
abbrev pub event_of : String → List Breadcrumb → Option String → ℕ × Draft → BridgeEvent
event_of platform crumbs project (now, d) = record {
  type = given d.type "log";
  level = given d.level "info";
  message = given d.message [];
  stack = d.stack;
  timestamp = now;
  platform = platform;
  project_id = project;
  breadcrumbs = some crumbs;
  url = d.url;
  route = d.route;
  mime = d.mime;
  body = d.body;
  args = d.args;
  navigation = d.navigation;
  network = d.network;
}

full_event-event_of :
    (now : ℕ) (d : Draft) (c : Client)
    → full_event now d c
      ≡ event_of (platform_name c.platform) c.breadcrumbs c.ws.project_id (now, d)
unfolding full_event
full_event-event_of now d c = refl

module _ (delay last now : ℕ) (d : Draft) (ds : List (ℕ × Draft)) where
  spaced_out-late :
      leb (last + delay) now ≡ true
      → spaced_out delay last ((now, d) ∷ ds) ≡ (now, d) ∷ spaced_out delay now ds
  spaced_out-late h = if-true _ _ _ h

  spaced_out-soon :
      leb (last + delay) now ≡ false
      → spaced_out delay last ((now, d) ∷ ds) ≡ spaced_out delay last ds
  spaced_out-soon h = if-false _ _ _ h

send_safe-project_id :
    (o : Option BridgeEvent) (b : Bridge) → (send_safe o b).project_id ≡ b.project_id
unfolding send_safe enqueue
send_safe-project_id none b = refl
send_safe-project_id (some e) b = ground arith

send-project_id : (e : BridgeEvent) (b : Bridge) → (send e b).project_id ≡ b.project_id
unfolding send
send-project_id e b = send_safe-project_id (validate_and_redact e) b

send_event-allowed :
    (now : ℕ) (d : Draft) (c : Client)
    → bypasses d false ≡ false
    → (should_allow now c.throttler).0 ≡ true
    → send_event now d false c ≡ record c {
      throttler = (should_allow now c.throttler).1;
      ws = code_bridge.WebSocket.send (full_event now d c) c.ws;
    }
unfolding send_event
send_event-allowed now d c q a = if-false _ _ _ q ∙ if-true _ _ _ a

send_event-refused :
    (now : ℕ) (d : Draft) (c : Client)
    → bypasses d false ≡ false
    → (should_allow now c.throttler).0 ≡ false
    → send_event now d false c ≡ c
unfolding send_event
send_event-refused now d c q a = if-false _ _ _ q ∙ if-false _ _ _ a

should_allow-late :
    (now : ℕ) (t : Throttler)
    → leb (t.last_call + t.delay_ms) now ≡ true
    → should_allow now t ≡ (true, record t { last_call = now })
unfolding should_allow
should_allow-late now t h = if-true _ _ _ h

should_allow-soon :
    (now : ℕ) (t : Throttler)
    → leb (t.last_call + t.delay_ms) now ≡ false
    → should_allow now t ≡ (false, t)
unfolding should_allow
should_allow-soon now t h = if-false _ _ _ h

-- What sendEvent hands to the socket of drafts that do not bypass the throttle: one event for each
-- draft that comes no sooner than the delay after the last one that was let through, in their
-- order, and nothing else. The event has the fields of the draft, or the defaults, the time of the
-- call, and the platform, the project and the breadcrumbs of the client.
pub send_drafts-spaced_out :
    (ds : List (ℕ × Draft)) (c : Client)
    → Quiet ds
    → (send_drafts ds c).ws
      ≡ send_all
          (map
            (event_of (platform_name c.platform) c.breadcrumbs c.ws.project_id)
            (spaced_out c.throttler.delay_ms c.throttler.last_call ds))
          c.ws
unfolding send_all
send_drafts-spaced_out [] c h = refl
send_drafts-spaced_out ((now, d) ∷ ds) c (q, h) =
    let t = c.throttler in
    let described = event_of (platform_name c.platform) c.breadcrumbs in
    elim (Bool-cases (leb (t.last_call + t.delay_ms) now)) [
      | inl late ↦
          let allow = should_allow-late now t late in
          let b = send (described c.ws.project_id (now, d)) c.ws in
          let c' : Client = record c { throttler = record t { last_call = now }; ws = b } in
          let sent : send_event now d false c ≡ c' =
            send_event-allowed now d c q (ap (λ (r : Bool × Throttler). r.0) allow)
            ∙ ap
                (λ (r : Bool × Throttler). record c {
                  throttler = r.1;
                  ws = send (full_event now d c) c.ws;
                })
                allow
            ∙ ap (λ e. record c { throttler = record t { last_call = now }; ws = send e c.ws })
                (full_event-event_of now d c) in
          ap (λ x. (send_drafts ds x).ws) sent
          ∙ send_drafts-spaced_out ds c' h
          ∙ ap (λ p. send_all (map (described p) (spaced_out t.delay_ms now ds)) b)
              (send-project_id (described c.ws.project_id (now, d)) c.ws)
          ∙ ap (λ xs. send_all (map (described c.ws.project_id) xs) c.ws)
              (sym (spaced_out-late t.delay_ms t.last_call now d ds late))
      | inr soon ↦
          let refused = should_allow-soon now t soon in
          ap (λ x. (send_drafts ds x).ws)
            (send_event-refused now d c q (ap (λ (r : Bool × Throttler). r.0) refused))
          ∙ send_drafts-spaced_out ds c h
          ∙ ap (λ xs. send_all (map (described c.ws.project_id) xs) c.ws)
              (sym (spaced_out-soon t.delay_ms t.last_call now d ds soon))
    ]
