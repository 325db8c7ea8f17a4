-- ===== src/Host/Outside.antt =====
-- A socket that nobody authenticated, and what sends to others leaves of it.
use code_bridge.Base.{
  not, add, keep, remove, suc, ◌+◌, ltb, ℕ, String, ◌≡◌, ◌≢◌, ◌⊎◌, inl, inr, Bool, true, false,
  Option, none, some, List, [], ◌∷◌, ◌++◌, nat_eq, any, find, if◌then◌else◌, All, All-append,
  Bool-cases,
}
use code_bridge.Js.Value.{Value}
use code_bridge.Socket.{is_open}
use code_bridge.Host.{Host, Subscription, Conn, Session, Frame, or_no_conn, conn_of, post, is_ready}
use code_bridge.Host.Routing.{
  window_ms, route_by, proceed, after_decision, Loop, finished, aborted, count_event,
  filter_event_for_consumer, should_route_to_consumer, send_if, offer, route_to,
}

abbrev pub has_session : ℕ → List (ℕ × Session) → Bool
has_session id ss = elim (find nat_eq id ss) [ none ↦ false | some s ↦ true ]

-- What keeps the server with that secret from sending to a socket: it is not authenticated, and no collection that
-- a handler sends to holds it. Nothing was sent.
pub record Out (key : String) (id : ℕ) (secret : String) (conns : List (ℕ × Conn))
    (sessions : List (ℕ × Session)) (consumers bridges : List ℕ) (pending : List (Value × ℕ))
    (sent : List (ℕ × Frame)) : Type 0 where
  pub same_secret : secret ≡ key
  pub unauthenticated : (or_no_conn (find nat_eq id conns)).is_authenticated ≡ false
  pub not_consumer : All (λ j. j ≢ id) consumers
  pub not_bridge : All (λ j. j ≢ id) bridges ⊎ (has_session id sessions ≡ true)
  pub not_awaited : All (λ (p : Value × ℕ). p.1 ≢ id) pending
  pub unsent : All (λ (p : ℕ × Frame). p.0 ≢ id) sent

unfoldable pub Outside : String → ℕ → Host → Type 0
Outside key id h =
    Out key id h.secret h.conns h.sessions h.consumers h.bridges h.pending_control h.sent

module _ {ℓ κ} {A : Type ℓ} (P : A → Type κ) where
  -- What both branches satisfy.
  pub if-both : (b : Bool) (x y : A) → P x → P y → P (if b then x else y)
  if-both true x y p q = p
  if-both false x y p q = q

pub Outside-post :
    (key : String) (id j : ℕ) (f : Frame) (h : Host)
    → j ≢ id
    → Outside key id h
    → Outside key id (post j f h)
unfolding Outside post
Outside-post key id j f h n k =
    if-both (Outside key id) (is_open (some (conn_of j h).ready))
      (record h { sent = h.sent ++ (j, f) ∷ [] }) h
      (record {
        same_secret = k.same_secret;
        unauthenticated = k.unauthenticated;
        not_consumer = k.not_consumer;
        not_bridge = k.not_bridge;
        not_awaited = k.not_awaited;
        unsent = All-append (λ (p : ℕ × Frame). p.0 ≢ id) h.sent ((j, f) ∷ []) k.unsent (n, tt);
      })
      k

Outside-count_event :
    (key : String) (id now : ℕ) (h : Host) → Outside key id h → Outside key id (count_event now h)
unfolding Outside count_event
Outside-count_event key id now h k =
    if-both (Outside key id) (ltb (h.window_start + window_ms) now)
      (record h { window_start = now; window_count = 1 })
      (record h { window_count = suc h.window_count }) k k

Outside-route_by :
    (key : String) (id now : ℕ) (s : Option Subscription) (m caps : Value) (h : Host)
    → Outside key id h
    → Outside key id (route_by now s m caps h).1
unfolding route_by filter_event_for_consumer
Outside-route_by key id now none m caps h k = k
Outside-route_by key id now (some s) m caps h k = Outside-count_event key id now h k

Outside-send_if :
    (key : String) (id j : ℕ) (f : Option Frame) (h : Host)
    → j ≢ id
    → Outside key id h
    → Outside key id (send_if f j h)
Outside-send_if key id j none h n k = k
Outside-send_if key id j (some f) h n k = Outside-post key id j f h n k

Outside-after_decision :
    (key : String) (id c : ℕ) (f : Option Frame) (d : Option Bool) (h : Host)
    → c ≢ id
    → Outside key id h
    → Outside key id (after_decision f c d h)
Outside-after_decision key id c f none h n k = k
Outside-after_decision key id c f (some false) h n k = k
Outside-after_decision key id c f (some true) h n k = Outside-send_if key id c f h n k

Outside-offer :
    (key : String) (id now b c : ℕ) (f : Option Frame) (m : Value) (h : Host)
    → c ≢ id
    → Outside key id h
    → Outside key id (offer now f m b c h).1
unfolding offer should_route_to_consumer
Outside-offer key id now b c f m h n k = elim (Bool-cases (is_ready c h)) [
  | inl e ↦ rw e (Outside-after_decision key id c f _ _ n (Outside-route_by key id now _ m _ h k))
  | inr e ↦ rw e k
]

-- The state that a loop leaves.
abbrev pub left_by : Loop → Host
left_by (finished cs h) = h
left_by (aborted h) = h

Outside-proceed :
    (key : String) (id c : ℕ) (d : Option Bool) (h : Host) (l : Loop)
    → Outside key id h
    → Outside key id (left_by l)
    → Outside key id (left_by (proceed c d h l))
Outside-proceed key id c none h l p q = p
Outside-proceed key id c (some false) h l p q = q
Outside-proceed key id c (some true) h (finished cs h') p q = q
Outside-proceed key id c (some true) h (aborted h') p q = q

pub Outside-route_to :
    (key : String) (id now b : ℕ) (f : Option Frame) (m : Value) (cs : List ℕ) (h : Host)
    → All (λ j. j ≢ id) cs
    → Outside key id h
    → Outside key id (left_by (route_to now f m b cs h))
unfolding route_to
Outside-route_to key id now b f m [] h ns k = k
Outside-route_to key id now b f m (c ∷ cs) h (n, ns) k =
    let (d, h') = offer now f m b c h in
    let after : Outside key id h' = Outside-offer key id now b c f m h n k in
    Outside-proceed key id c d h' (route_to now f m b cs h') after
      (Outside-route_to key id now b f m cs h' ns after)

-- The consumers that a loop found.
abbrev pub found : Loop → List ℕ
found (finished cs h) = cs
found (aborted h) = []

All-proceed :
    (id c : ℕ) (d : Option Bool) (h : Host) (l : Loop)
    → c ≢ id
    → All (λ j. j ≢ id) (found l)
    → All (λ j. j ≢ id) (found (proceed c d h l))
All-proceed id c none h l n k = tt
All-proceed id c (some false) h l n k = k
All-proceed id c (some true) h (finished cs h') n k = (n, k)
All-proceed id c (some true) h (aborted h') n k = tt

pub All-found :
    (id now b : ℕ) (f : Option Frame) (m : Value) (cs : List ℕ) (h : Host)
    → All (λ j. j ≢ id) cs
    → All (λ j. j ≢ id) (found (route_to now f m b cs h))
unfolding route_to
All-found id now b f m [] h ns = tt
All-found id now b f m (c ∷ cs) h (n, ns) =
    let (d, h') = offer now f m b c h in
    All-proceed id c d h' (route_to now f m b cs h') n (All-found id now b f m cs h' ns)

pub Outside-consumers :
    (key : String) (id : ℕ) (h : Host) → Outside key id h → All (λ j. j ≢ id) h.consumers
unfolding Outside
Outside-consumers key id h k = k.not_consumer

module _ {ℓ} {A : Type ℓ} (P : A → Type 0) where
  pub All-keep : (t : A → Bool) (xs : List A) → All P xs → All P (keep t xs)
  All-keep t [] h = tt
  All-keep t (x ∷ xs) (p, h) = if-both (All P) (t x) _ _ (p, All-keep t xs h) (All-keep t xs h)

pub All-add :
    (id j : ℕ) (xs : List ℕ) → j ≢ id → All (λ j. j ≢ id) xs → All (λ j. j ≢ id) (add nat_eq j xs)
All-add id j xs n h =
    if-both (All (λ j. j ≢ id)) (any (λ i. nat_eq i j) xs) _ _ h
      (All-append (λ j. j ≢ id) xs (j ∷ []) h (n, tt))

pub add-harmless :
    {P : Type 0} (id j : ℕ) (bs : List ℕ)
    → j ≢ id
    → All (λ b. b ≢ id) bs ⊎ P
    → All (λ b. b ≢ id) (add nat_eq j bs) ⊎ P
add-harmless id j bs n (inl ns) = inl (All-add id j bs n ns)
add-harmless id j bs n (inr p) = inr p

pub remove-harmless :
    {P : Type 0} (id j : ℕ) (bs : List ℕ)
    → All (λ b. b ≢ id) bs ⊎ P
    → All (λ b. b ≢ id) (remove nat_eq j bs) ⊎ P
remove-harmless id j bs (inl ns) = inl (All-keep (λ b. b ≢ id) (λ i. not (nat_eq i j)) bs ns)
remove-harmless id j bs (inr p) = inr p
