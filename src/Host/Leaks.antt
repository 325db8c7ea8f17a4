-- ===== src/Host/Leaks.antt =====
-- When a socket is closed nothing in the server refers to it any more.
use code_bridge.Base.{ℕ, ◌≡◌, refl, inl, inr, String, false, List, [], ◌∷◌, arith, Bool-cases}
use code_bridge.Socket.{closed}
use code_bridge.Host.{Host, new, conn_of}
use code_bridge.Host.Http.{prune_http_sessions}
use code_bridge.Host.Runs.{
  Event, connects, receives, auth_due, closes, requests, prunes, is_closed, if_alive, step, run,
}
use code_bridge.Host.Outside.{if-both, has_session}
use code_bridge.Host.Owned.{Owned, conn_in, IsAlive, NoBridge, NoConsumer, NotOrigin}
use code_bridge.Host.Forgotten.{Owned-on_close}
use code_bridge.Host.Sockets.{Owned-on_message, Owned-on_auth_timeout, Owned-on_connection}
use code_bridge.Host.Endpoints.{Owned-prune, Owned-on_request}

Owned-if_alive :
    (id j : ℕ) (h' h : Host)
    → (IsAlive j h.conns → Owned id h')
    → Owned id h
    → Owned id (if_alive j h' h)
unfolding if_alive conn_of
Owned-if_alive id j h' h f k = elim (Bool-cases (is_closed (conn_in j h.conns).ready)) [
  | inl e ↦ rw e k
  | inr e ↦ rw e (f e)
]

Owned-step : (id now : ℕ) (e : Event) (h : Host) → Owned id h → Owned id (step now e h)
unfolding step prune_http_sessions
Owned-step id now connects h k = Owned-on_connection id h k
Owned-step id now (receives j o) h k =
    Owned-if_alive id j _ h (λ a. Owned-on_message id now j o h a k) k
Owned-step id now (auth_due j) h k = if-both (Owned id) _ _ _ (Owned-on_auth_timeout id j h k) k
Owned-step id now (closes j) h k = Owned-if_alive id j _ h (λ a. Owned-on_close id j h a k) k
Owned-step id now (requests r) h k = Owned-on_request id now r h k
Owned-step id now prunes h k = Owned-prune id now _ h k

Owned-run : (id : ℕ) (es : List (ℕ × Event)) (h : Host) → Owned id h → Owned id (run es h)
unfolding run
Owned-run id [] h k = k
Owned-run id ((now, e) ∷ es) h k = Owned-run id es _ (Owned-step id now e h k)

Owned-new : (id now : ℕ) (secret : String) → Owned id (new now secret)
unfolding Owned new
Owned-new id now secret = record {
  fresh = inr (refl, refl, refl);
  unset = inr refl;
  as_bridge = inl (record { not_bridge = tt; no_capabilities = tt; no_screenshot = tt });
  as_consumer = inl (record { not_consumer = tt; no_subscription = tt });
  as_origin = inl tt;
}

-- No collection of the server holds the socket.
pub record Forgotten (id : ℕ) (h : Host) : Type 0 where
  pub as_bridge : NoBridge id h.bridges h.bridge_capabilities h.bridge_last_screenshot
  pub as_consumer : NoConsumer id h.consumers h.consumer_subscriptions
  pub as_origin : NotOrigin id h.pending_control

forgotten :
    (id : ℕ) (h : Host)
    → (conn_of id h).ready ≡ closed
    → has_session id h.sessions ≡ false
    → Owned id h
    → Forgotten id h
unfolding Owned conn_of
forgotten id h e n k = record {
  as_bridge = elim k.as_bridge [
    | inl b ↦ b
    | inr (inl s) ↦ absurd (ground (arith, s))
    | inr (inr (r, a)) ↦ absurd (ground (arith, a, e))
  ];
  as_consumer = elim k.as_consumer [ inl b ↦ b | inr (r, a) ↦ absurd (ground (arith, a, e)) ];
  as_origin = elim k.as_origin [ inl b ↦ b | inr a ↦ absurd (ground (arith, a, e)) ];
}

-- Whatever happens to a server from its start: a number that is no HTTP session, and whose socket is
-- closed or was never there, is in none of its sets and maps. It is no bridge and no consumer, it
-- has no capabilities, no subscription and no time of a screenshot, and no pending control request
-- is to be answered to it.
pub run-Forgotten :
    (id now : ℕ) (secret : String) (es : List (ℕ × Event))
    → (conn_of id (run es (new now secret))).ready ≡ closed
    → has_session id (run es (new now secret)).sessions ≡ false
    → Forgotten id (run es (new now secret))
run-Forgotten id now secret es e n =
    forgotten id (run es (new now secret)) e n
      (Owned-run id es (new now secret) (Owned-new id now secret))
