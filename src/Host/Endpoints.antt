-- ===== src/Host/Endpoints.antt =====
-- How the HTTP endpoints keep each socket to what its role allows.
use code_bridge.Base.{
  ℕ, suc, ◌≡◌, ◌≢◌, refl, subst, inl, inr, String, true, Option, none, some, List, [], ◌∷◌, nat_eq,
  find, put, add, arith,
}
use code_bridge.Js.Value.{Value, Values, nil, cons, null, get_field, string}
use code_bridge.Host.{Host, Session, Ran, ended, threw, relayed}
use code_bridge.Host.Http.{
  add_session, and_then, complete_event, no_content, events_of, Endpoint, connect, hello, events,
  control_result, control_poll, disconnect, Request, Response, with_id, session_at,
  get_http_session, remove_http_session, prune_session, prune, touch, on_connect, on_http_hello,
  deliver_to_consumers, on_events, take_queue, on_poll, answered, serve, serve_found, with_session,
  disconnect_found, on_disconnect, serve_path, serve_body, on_body, on_request,
}
use code_bridge.Host.Outside.{if-both, has_session, All-add}
use code_bridge.Host.Unsent.{left}
use code_bridge.Host.Owned.{Owned, NoBridge, NotKey-erase, same_or_not, lift, Owned-set_bridge_meta}
use code_bridge.Host.Held.{Owned-set_session, Owned-on_control_result, Owned-routed}
use code_bridge.Host.Forgotten.{NotIn-remove, next-Free}

-- A session that a request names is there.
abbrev Found : Option (ℕ × Session) → Host → Type 0
Found none h = Unit
Found (some (j, s)) h = find nat_eq j h.sessions ≡ some s

Found-with_id :
    (j : ℕ) (o : Option Session) (h : Host) → find nat_eq j h.sessions ≡ o → Found (with_id j o) h
unfolding with_id
Found-with_id j none h e = tt
Found-with_id j (some s) h e = e

Found-session_at : (o : Option ℕ) (h : Host) → Found (session_at o h) h
unfolding session_at
Found-session_at none h = tt
Found-session_at (some j) h = Found-with_id j (find nat_eq j h.sessions) h refl

Found-get : (v : Value) (h : Host) → Found (get_http_session v h) h
unfolding get_http_session
Found-get (string s) h = Found-session_at _ h
Found-get v h = tt

has_session-put-other :
    (id j : ℕ) (s : Session) (ss : List (ℕ × Session))
    → j ≢ id
    → has_session id (put nat_eq j s ss) ≡ has_session id ss
has_session-put-other id j s [] n = ground arith
has_session-put-other id j s ((i, t) ∷ ss) n = ground (arith, has_session-put-other id j s ss n)

has_session-put-same :
    (id : ℕ) (s : Session) (ss : List (ℕ × Session)) → has_session id (put nat_eq id s ss) ≡ true
has_session-put-same id s [] = ground arith
has_session-put-same id s ((i, t) ∷ ss) = ground (arith, has_session-put-same id s ss)

found-has_session :
    (j : ℕ) (s : Session) (ss : List (ℕ × Session))
    → find nat_eq j ss ≡ some s
    → has_session j ss ≡ true
found-has_session j s ss e = rw (e, has_session) refl

-- A session that is put under the next number.
abbrev with_session_of : Session → Host → Host
with_session_of s h = record h {
  next = suc h.next;
  sessions = put nat_eq h.next s h.sessions;
  bridges = add nat_eq h.next h.bridges;
}

Owned-session_self : (s : Session) (h : Host) → Owned h.next h → Owned h.next (with_session_of s h)
unfolding Owned
Owned-session_self s h k =
    let f = next-Free h.next h refl k in
    record {
      fresh = inl (omega arith);
      unset = k.unset;
      as_bridge = inr (inl (has_session-put-same h.next s h.sessions));
      as_consumer = inl f.no_consumer;
      as_origin = inl f.no_origin;
    }

Owned-session_other :
    (id : ℕ) (s : Session) (h : Host) → h.next ≢ id → Owned id h → Owned id (with_session_of s h)
unfolding Owned
Owned-session_other id s h n k =
    let same = has_session-put-other id h.next s h.sessions n in
    record {
      fresh = rw same (elim k.fresh [ inl l ↦ inl (omega arith) | inr u ↦ inr u ]);
      unset = k.unset;
      as_bridge = rw same (
          lift
            (λ (b : NoBridge id h.bridges h.bridge_capabilities h.bridge_last_screenshot). record {
              not_bridge = All-add id h.next h.bridges n b.not_bridge;
              no_capabilities = b.no_capabilities;
              no_screenshot = b.no_screenshot;
            })
            k.as_bridge);
      as_consumer = k.as_consumer;
      as_origin = k.as_origin;
    }

Owned-new_session : (id : ℕ) (s : Session) (h : Host) → Owned id h → Owned id (with_session_of s h)
Owned-new_session id s h k = elim (same_or_not h.next id) [
  | inl q ↦ subst (λ i. Owned i h → Owned i (with_session_of s h)) q (Owned-session_self s h) k
  | inr n ↦ Owned-session_other id s h n k
]

module _ (id : ℕ) where
  Owned-remove :
      (j : ℕ) (s : Session) (h : Host) → Owned id h → Owned id (remove_http_session j s h)
  unfolding Owned remove_http_session
  Owned-remove j s h k = record {
    fresh = k.fresh;
    unset = k.unset;
    as_bridge =
        lift
          (λ (b : NoBridge id h.bridges h.bridge_capabilities h.bridge_last_screenshot). record {
            not_bridge = NotIn-remove id j h.bridges b.not_bridge;
            no_capabilities = NotKey-erase id j h.bridge_capabilities b.no_capabilities;
            no_screenshot = NotKey-erase id j h.bridge_last_screenshot b.no_screenshot;
          })
          k.as_bridge;
    as_consumer = k.as_consumer;
    as_origin = k.as_origin;
  }

  Owned-prune_session :
      (now j : ℕ) (o : Option Session) (h : Host) → Owned id h → Owned id (prune_session now j o h)
  unfolding prune_session
  Owned-prune_session now j none h k = k
  Owned-prune_session now j (some s) h k = if-both (Owned id) _ _ _ (Owned-remove j s h k) k

  pub Owned-prune :
      (now : ℕ) (es : List (String × ℕ)) (h : Host) → Owned id h → Owned id (prune now es h)
  unfolding prune
  Owned-prune now [] h k = k
  Owned-prune now ((name, j) ∷ es) h k = Owned-prune now es _ (Owned-prune_session now j _ h k)

  Owned-take_queue :
      (j : ℕ) (o : Option Session) (h : Host)
      → find nat_eq j h.sessions ≡ o
      → Owned id h
      → Owned id (take_queue j o h).0
  unfolding take_queue
  Owned-take_queue j none h e k = k
  Owned-take_queue j (some s) h e k = Owned-set_session id j s (record s { queue = [] }) h e k

  Owned-on_connect :
      (now : ℕ) (v body : Value) (drawn : String) (h : Host)
      → Owned id h
      → Owned id (on_connect now v body drawn h).0
  unfolding on_connect add_session Owned
  Owned-on_connect now v body drawn h k =
      let s : Session = record { session_id = drawn; queue = []; last_seen = now } in
      if-both (λ (r : Host × Response). Owned id r.0) _ (add_session now drawn h, _) (h, _)
        (Owned-new_session id s h k) k

  Owned-and_then :
      (r : Ran) (rest : Host → Ran)
      → Owned id (left r)
      → ((h : Host) → Owned id h → Owned id (left (rest h)))
      → Owned id (left (and_then r rest))
  Owned-and_then (ended h) rest k f = f h k
  Owned-and_then (threw h) rest k f = k

  Owned-on_events :
      (now j : ℕ) (evs : Values) (h : Host) → Owned id h → Owned id (left (on_events now j evs h))
  unfolding on_events deliver_to_consumers
  Owned-on_events now j nil h k = k
  Owned-on_events now j (cons ev evs) h k =
      let ev' = complete_event now ev in
      Owned-and_then (deliver_to_consumers now ev' j h) (on_events now j evs)
        (Owned-routed id now j (some (relayed ev')) ev' h k) (Owned-on_events now j evs)

  Owned-answered : (r : Response) (o : Ran) → Owned id (left o) → Owned id (answered r o).0
  Owned-answered r (ended h) k = k
  Owned-answered r (threw h) k = k

  Owned-serve :
      (now : ℕ) (p : Endpoint) (j : ℕ) (s : Session) (body : Value) (h : Host)
      → (j ≡ id → has_session id h.sessions ≡ true)
      → Owned id h
      → Owned id (serve now p j s body h).0
  unfolding serve on_poll on_http_hello
  Owned-serve now hello j s body h a k = Owned-set_bridge_meta id j h _ (λ q. inl (a q)) k
  Owned-serve now events j s body h a k =
      let evs = events_of (get_field "events" body) in
      Owned-answered no_content (on_events now j evs h) (Owned-on_events now j evs h k)
  Owned-serve now control_result j s body h a k = Owned-on_control_result id _ _ h k
  Owned-serve now control_poll j s body h a k = Owned-take_queue j _ h refl k
  Owned-serve now p j s body h a k = k

  Owned-serve_found :
      (now : ℕ) (p : Endpoint) (body : Value) (o : Option (ℕ × Session)) (h : Host)
      → Found o h
      → Owned id h
      → Owned id (serve_found now p body o h).0
  unfolding serve_found touch
  Owned-serve_found now p body none h e k = k
  Owned-serve_found now p body (some (j, s)) h e k =
      let s' : Session = record s { last_seen = now } in
      Owned-serve now p j s body (touch now j s h)
        (λ q.
          subst (λ i. has_session i (put nat_eq j s' h.sessions) ≡ true) q
            (has_session-put-same j s' h.sessions))
        (Owned-set_session id j s s' h e k)

  Owned-disconnect :
      (o : Option (ℕ × Session)) (h : Host) → Owned id h → Owned id (disconnect_found o h)
  unfolding disconnect_found
  Owned-disconnect none h k = k
  Owned-disconnect (some (j, s)) h k = Owned-remove j s h k

  Owned-serve_path :
      (now : ℕ) (r : Request) (p : Endpoint) (body : Value) (h : Host)
      → Owned id h
      → Owned id (serve_path now r p body h).0
  unfolding serve_path with_session on_disconnect
  Owned-serve_path now r connect body h k = Owned-on_connect now r.secret_header body r.drawn h k
  Owned-serve_path now r disconnect body h k = Owned-disconnect _ h k
  Owned-serve_path now r p body h k =
      Owned-serve_found now p body _ h (Found-get (get_field "sessionId" body) h) k

  Owned-serve_body :
      (now : ℕ) (r : Request) (body : Value) (h : Host)
      → Owned id h
      → Owned id (serve_body now r body h).0
  unfolding serve_body
  Owned-serve_body now r null h k = k
  Owned-serve_body now r body h k = Owned-serve_path now r r.path body h k

  Owned-on_body :
      (now : ℕ) (r : Request) (o : Option Value) (h : Host)
      → Owned id h
      → Owned id (on_body now r o h).0
  unfolding on_body
  Owned-on_body now r none h k = k
  Owned-on_body now r (some body) h k = Owned-serve_body now r body h k

  pub Owned-on_request :
      (now : ℕ) (r : Request) (h : Host) → Owned id h → Owned id (on_request now r h).0
  unfolding on_request
  Owned-on_request now r h k =
      if-both (λ (r : Host × Response). Owned id r.0) _ _ _ k (Owned-on_body now r r.body h k)
