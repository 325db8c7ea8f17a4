-- ===== src/Host/Secrecy.antt =====
-- Nothing is sent to a socket before it presents the secret, whatever else happens.
use code_bridge.Base.{
  refl, ℕ, String, ◌≡◌, ◌≢◌, inl, false, Option, none, some, List, [], ◌∷◌, any, arith, All,
}
use code_bridge.Js.Value.{Value, Values, nil, cons, null, get_field}
use code_bridge.Host.{relayed, Host, new, Session, Frame, Ran, ended, threw}
use code_bridge.Host.Bridges.{set_bridge_meta}
use code_bridge.Host.Http.{
  complete_event, no_content, events_of, add_session, and_then, Endpoint, connect, hello, events,
  control_result, control_poll, disconnect, Request, Response, remove_http_session, prune_session,
  prune, prune_http_sessions, touch, on_connect, on_http_hello, deliver_to_consumers, on_events,
  take_queue, on_poll, answered, serve, serve_found, with_session, disconnect_found, on_disconnect,
  serve_path, serve_body, on_body, on_request,
}
use code_bridge.Host.Runs.{
  Event, connects, receives, auth_due, closes, requests, prunes, if_alive, step, run,
}
use code_bridge.Host.Outside.{remove-harmless, Outside, if-both}
use code_bridge.Host.Unsent.{left, Outside-on_control_result, Outside-routed}
use code_bridge.Host.Forwarded.{new_session-harmless, set_session-harmless}
use code_bridge.Host.Handled.{
  presents, Outside-on_message, Outside-on_close, Outside-on_connection, Outside-on_auth_timeout,
}

module _ (key : String) (id : ℕ) where
  Outside-remove :
      (j : ℕ) (s : Session) (h : Host)
      → Outside key id h
      → Outside key id (remove_http_session j s h)
  unfolding Outside remove_http_session
  Outside-remove j s h k = record {
    same_secret = k.same_secret;
    unauthenticated = k.unauthenticated;
    not_consumer = k.not_consumer;
    not_bridge = remove-harmless id j h.bridges k.not_bridge;
    not_awaited = k.not_awaited;
    unsent = k.unsent;
  }

  Outside-prune_session :
      (now j : ℕ) (o : Option Session) (h : Host)
      → Outside key id h
      → Outside key id (prune_session now j o h)
  unfolding prune_session
  Outside-prune_session now j none h k = k
  Outside-prune_session now j (some s) h k =
      if-both (Outside key id) _ _ _ (Outside-remove j s h k) k

  Outside-prune :
      (now : ℕ) (es : List (String × ℕ)) (h : Host)
      → Outside key id h
      → Outside key id (prune now es h)
  unfolding prune
  Outside-prune now [] h k = k
  Outside-prune now ((name, j) ∷ es) h k =
      Outside-prune now es _ (Outside-prune_session now j _ h k)

  Outside-touch :
      (now j : ℕ) (s : Session) (h : Host) → Outside key id h → Outside key id (touch now j s h)
  unfolding Outside touch
  Outside-touch now j s h k = record {
    same_secret = k.same_secret;
    unauthenticated = k.unauthenticated;
    not_consumer = k.not_consumer;
    not_bridge = set_session-harmless id j _ h.bridges h.sessions k.not_bridge;
    not_awaited = k.not_awaited;
    unsent = k.unsent;
  }

  Outside-take_queue :
      (j : ℕ) (o : Option Session) (h : Host)
      → Outside key id h
      → Outside key id (take_queue j o h).0
  unfolding Outside take_queue
  Outside-take_queue j none h k = k
  Outside-take_queue j (some s) h k = record {
    same_secret = k.same_secret;
    unauthenticated = k.unauthenticated;
    not_consumer = k.not_consumer;
    not_bridge = set_session-harmless id j _ h.bridges h.sessions k.not_bridge;
    not_awaited = k.not_awaited;
    unsent = k.unsent;
  }

  Outside-add_session :
      (now : ℕ) (drawn : String) (h : Host)
      → Outside key id h
      → Outside key id (add_session now drawn h)
  unfolding Outside add_session
  Outside-add_session now drawn h k = record {
    same_secret = k.same_secret;
    unauthenticated = k.unauthenticated;
    not_consumer = k.not_consumer;
    not_bridge = new_session-harmless id h.next _ h.bridges h.sessions k.not_bridge;
    not_awaited = k.not_awaited;
    unsent = k.unsent;
  }

  Outside-on_connect :
      (now : ℕ) (v body : Value) (drawn : String) (h : Host)
      → Outside key id h
      → Outside key id (on_connect now v body drawn h).0
  unfolding on_connect
  Outside-on_connect now v body drawn h k =
      if-both (λ (r : Host × Response). Outside key id r.0) _ _ _
        (Outside-add_session now drawn h k) k

  Outside-on_http_hello :
      (j : ℕ) (s : Session) (body : Value) (h : Host)
      → Outside key id h
      → Outside key id (on_http_hello j s body h).0
  unfolding Outside on_http_hello set_bridge_meta
  Outside-on_http_hello j s body h k = k

  Outside-and_then :
      (r : Ran) (rest : Host → Ran)
      → Outside key id (left r)
      → ((h : Host) → Outside key id h → Outside key id (left (rest h)))
      → Outside key id (left (and_then r rest))
  Outside-and_then (ended h) rest k f = f h k
  Outside-and_then (threw h) rest k f = k

  Outside-on_events :
      (now j : ℕ) (evs : Values) (h : Host)
      → Outside key id h
      → Outside key id (left (on_events now j evs h))
  unfolding on_events deliver_to_consumers
  Outside-on_events now j nil h k = k
  Outside-on_events now j (cons ev evs) h k =
      let ev' = complete_event now ev in
      Outside-and_then (deliver_to_consumers now ev' j h) (on_events now j evs)
        (Outside-routed key id now j (some (relayed ev')) ev' h k) (Outside-on_events now j evs)

  Outside-answered :
      (r : Response) (o : Ran) → Outside key id (left o) → Outside key id (answered r o).0
  Outside-answered r (ended h) k = k
  Outside-answered r (threw h) k = k

  Outside-serve :
      (now : ℕ) (p : Endpoint) (j : ℕ) (s : Session) (body : Value) (h : Host)
      → Outside key id h
      → Outside key id (serve now p j s body h).0
  unfolding serve on_poll
  Outside-serve now hello j s body h k = Outside-on_http_hello j s body h k
  Outside-serve now events j s body h k =
      (let evs = events_of (get_field "events" body) in
        Outside-answered no_content (on_events now j evs h) (Outside-on_events now j evs h k))
  Outside-serve now control_result j s body h k = Outside-on_control_result key id _ _ h k
  Outside-serve now control_poll j s body h k = Outside-take_queue j _ h k
  Outside-serve now p j s body h k = k

  Outside-serve_found :
      (now : ℕ) (p : Endpoint) (body : Value) (o : Option (ℕ × Session)) (h : Host)
      → Outside key id h
      → Outside key id (serve_found now p body o h).0
  unfolding serve_found
  Outside-serve_found now p body none h k = k
  Outside-serve_found now p body (some (j, s)) h k =
      Outside-serve now p j s body _ (Outside-touch now j s h k)

  Outside-disconnect :
      (o : Option (ℕ × Session)) (h : Host)
      → Outside key id h
      → Outside key id (disconnect_found o h)
  unfolding disconnect_found
  Outside-disconnect none h k = k
  Outside-disconnect (some (j, s)) h k = Outside-remove j s h k

  Outside-serve_path :
      (now : ℕ) (r : Request) (p : Endpoint) (body : Value) (h : Host)
      → Outside key id h
      → Outside key id (serve_path now r p body h).0
  unfolding serve_path with_session on_disconnect
  Outside-serve_path now r connect body h k =
      Outside-on_connect now r.secret_header body r.drawn h k
  Outside-serve_path now r disconnect body h k = Outside-disconnect _ h k
  Outside-serve_path now r p body h k = Outside-serve_found now p body _ h k

  Outside-serve_body :
      (now : ℕ) (r : Request) (body : Value) (h : Host)
      → Outside key id h
      → Outside key id (serve_body now r body h).0
  unfolding serve_body
  Outside-serve_body now r null h k = k
  Outside-serve_body now r body h k = Outside-serve_path now r r.path body h k

  Outside-on_body :
      (now : ℕ) (r : Request) (o : Option Value) (h : Host)
      → Outside key id h
      → Outside key id (on_body now r o h).0
  unfolding on_body
  Outside-on_body now r none h k = k
  Outside-on_body now r (some body) h k = Outside-serve_body now r body h k

  Outside-on_request :
      (now : ℕ) (r : Request) (h : Host) → Outside key id h → Outside key id (on_request now r h).0
  unfolding on_request
  Outside-on_request now r h k =
      if-both (λ (r : Host × Response). Outside key id r.0) _ _ _ k
        (Outside-on_body now r r.body h k)

  Outside-step :
      (now : ℕ) (e : Event) (h : Host)
      → presents id key (now, e) ≡ false
      → Outside key id h
      → Outside key id (step now e h)
  unfolding step if_alive prune_http_sessions
  Outside-step now connects h n k = Outside-on_connection key id h k
  Outside-step now (receives j o) h n k =
      if-both (Outside key id) _ _ _ k (Outside-on_message key id now j o h n k)
  Outside-step now (auth_due j) h n k =
      if-both (Outside key id) _ _ _ (Outside-on_auth_timeout key id j h k) k
  Outside-step now (closes j) h n k =
      if-both (Outside key id) _ _ _ k (Outside-on_close key id j h k)
  Outside-step now (requests r) h n k = Outside-on_request now r h k
  Outside-step now prunes h n k = Outside-prune now _ h k

  Outside-run :
      (es : List (ℕ × Event)) (h : Host)
      → any (presents id key) es ≡ false
      → Outside key id h
      → Outside key id (run es h)
  unfolding run
  Outside-run [] h n k = k
  Outside-run ((now, e) ∷ es) h n k =
      Outside-run es _ (ground arith) (Outside-step now e h (ground arith) k)

  Outside-new : (now : ℕ) → Outside key id (new now key)
  unfolding Outside new
  Outside-new now = record {
    same_secret = refl;
    unauthenticated = refl;
    not_consumer = tt;
    not_bridge = inl tt;
    not_awaited = tt;
    unsent = tt;
  }

  unsent_of : (h : Host) → Outside key id h → All (λ (p : ℕ × Frame). p.0 ≢ id) h.sent
  unfolding Outside
  unsent_of h k = k.unsent

-- A server that starts with the secret `key` sends nothing to the socket with number id, as long
-- as that socket has not sent an `auth` message with the secret, whatever messages, HTTP requests,
-- timeouts and ends of other sockets there are in between.
pub sent-secret :
    (now : ℕ) (key : String) (id : ℕ) (es : List (ℕ × Event))
    → any (presents id key) es ≡ false
    → All (λ (p : ℕ × Frame). p.0 ≢ id) (run es (new now key)).sent
sent-secret now key id es n =
    unsent_of key id _ (Outside-run key id es _ n (Outside-new key id now))
