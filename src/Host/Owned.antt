-- ===== src/Host/Owned.antt =====
-- Who may hold a socket: the collections of the server, as far as the role of the socket says.
use code_bridge.Base.{
  ℕ, ◌≡◌, ◌≢◌, ◌<◌, sym, subst, ◌⊎◌, inl, inr, Bool, true, false, none, some, List, [], ◌∷◌, nat_eq,
  nat_eq_iff, find, put, erase, arith, All, Bool-cases,
}
use code_bridge.Js.Value.{Value}
use code_bridge.Host.{
  Host, Conn, Session, BridgeMeta, Subscription, bridge, consumer, or_no_conn, same_key,
}
use code_bridge.Host.Bridges.{set_bridge_meta, set_last_screenshot, add_pending, drop_request}
use code_bridge.Host.Consumers.{set_subscription}
use code_bridge.Host.Runs.{is_closed}
use code_bridge.Host.Static.{static}
use code_bridge.Host.Outside.{has_session}
use code_bridge.Host.Unsent.{All-put, All-erase}

abbrev pub conn_in : ℕ → List (ℕ × Conn) → Conn
conn_in id conns = or_no_conn (find nat_eq id conns)

abbrev pub IsAlive : ℕ → List (ℕ × Conn) → Type 0
IsAlive id conns = is_closed (conn_in id conns).ready ≡ false

-- An HTTP session, or a socket that is a bridge and not closed.
abbrev pub IsBridge : ℕ → List (ℕ × Conn) → List (ℕ × Session) → Type 0
IsBridge id conns sessions =
    (has_session id sessions ≡ true) ⊎ (((conn_in id conns).role ≡ some bridge) × IsAlive id conns)

abbrev pub IsConsumer : ℕ → List (ℕ × Conn) → Type 0
IsConsumer id conns = ((conn_in id conns).role ≡ some consumer) × IsAlive id conns

-- No socket, and no session.
abbrev pub IsUnused : Conn → Bool → Type 0
IsUnused c session = (is_closed c.ready ≡ true) × (c.role ≡ none) × (session ≡ false)

module _ (id : ℕ) where
  abbrev pub NotKey : {V : Type 0} → List (ℕ × V) → Type 0
  NotKey {V} = All (λ (p : ℕ × V). p.0 ≢ id)

  abbrev pub NotOrigin : List (Value × ℕ) → Type 0
  NotOrigin = All (λ (p : Value × ℕ). p.1 ≢ id)

  abbrev pub NotIn : List ℕ → Type 0
  NotIn = All (λ j. j ≢ id)

  -- What nothing keeps as a bridge.
  pub record NoBridge (bridges : List ℕ) (caps : List (ℕ × BridgeMeta)) (shots : List (ℕ × ℕ))
      : Type 0 where
    pub not_bridge : NotIn bridges
    pub no_capabilities : NotKey caps
    pub no_screenshot : NotKey shots

  pub record NoConsumer (consumers : List ℕ) (subs : List (ℕ × Subscription)) : Type 0 where
    pub not_consumer : NotIn consumers
    pub no_subscription : NotKey subs

  pub record Own (next : ℕ) (conns : List (ℕ × Conn)) (sessions : List (ℕ × Session))
      (bridges consumers : List ℕ) (caps : List (ℕ × BridgeMeta)) (subs : List (ℕ × Subscription))
      (pending : List (Value × ℕ)) (shots : List (ℕ × ℕ)) : Type 0 where
    pub fresh : (id < next) ⊎ IsUnused (conn_in id conns) (has_session id sessions)
    pub unset : ((conn_in id conns).is_authenticated ≡ true) ⊎ ((conn_in id conns).role ≡ none)
    pub as_bridge : NoBridge bridges caps shots ⊎ IsBridge id conns sessions
    pub as_consumer : NoConsumer consumers subs ⊎ IsConsumer id conns
    pub as_origin : NotOrigin pending ⊎ IsAlive id conns

-- The socket is held only as its role allows, and only while it is not closed.
unfoldable pub Owned : ℕ → Host → Type 0
Owned id h =
    Own id h.next h.conns h.sessions h.bridges h.consumers h.bridge_capabilities
      h.consumer_subscriptions h.pending_control h.bridge_last_screenshot

pub Owned-static : (id : ℕ) (h k : Host) → static k ≡ static h → Owned id h → Owned id k
unfolding Owned static
Owned-static id h k e = subst (λ (s : Host). Owned id s) (sym e)

module _ {V : Type 0} where
  pub NotKey-put :
      (id j : ℕ) (v : V) (m : List (ℕ × V)) → j ≢ id → NotKey id m → NotKey id (put nat_eq j v m)
  NotKey-put id j v [] n h = (n, tt)
  NotKey-put id j v ((i, w) ∷ m) n (p, h) = ground (arith, NotKey-put id j v m n h)

  pub NotKey-erase : (id j : ℕ) (m : List (ℕ × V)) → NotKey id m → NotKey id (erase nat_eq j m)
  NotKey-erase id j [] h = tt
  NotKey-erase id j ((i, w) ∷ m) (p, h) = ground (arith, NotKey-erase id j m h)

  pub NotKey-erase-same : (id : ℕ) (m : List (ℕ × V)) → NotKey id (erase nat_eq id m)
  NotKey-erase-same id [] = tt
  NotKey-erase-same id ((i, w) ∷ m) = ground (arith, NotKey-erase-same id m)

-- Two numbers are the same, or not.
pub same_or_not : (j id : ℕ) → (j ≡ id) ⊎ (j ≢ id)
same_or_not j id = elim (Bool-cases (nat_eq j id)) [
  | inl e ↦ inl ((nat_eq_iff j id).0 e)
  | inr e ↦ inr (ground arith)
]

-- A change that is fine for every other socket, and that the role of this one allows.
pub allowed : {A B R : Type 0} (j id : ℕ) → (j ≡ id → R) → (j ≢ id → A → B) → A ⊎ R → B ⊎ R
allowed j id r f (inr q) = inr q
allowed j id r f (inl a) = elim (same_or_not j id) [ inl e ↦ inr (r e) | inr n ↦ inl (f n a) ]

module _ (id j : ℕ) (h : Host) where
  pub Owned-set_bridge_meta :
      (m : BridgeMeta)
      → (j ≡ id → IsBridge id h.conns h.sessions)
      → Owned id h
      → Owned id (set_bridge_meta j m h)
  unfolding Owned set_bridge_meta
  Owned-set_bridge_meta m r k = record {
    fresh = k.fresh;
    unset = k.unset;
    as_bridge =
        allowed j id r
          (λ n (b : NoBridge id h.bridges h.bridge_capabilities h.bridge_last_screenshot). record {
            not_bridge = b.not_bridge;
            no_capabilities = NotKey-put id j m h.bridge_capabilities n b.no_capabilities;
            no_screenshot = b.no_screenshot;
          })
          k.as_bridge;
    as_consumer = k.as_consumer;
    as_origin = k.as_origin;
  }

  pub Owned-set_last_screenshot :
      (now : ℕ)
      → (j ≡ id → IsBridge id h.conns h.sessions)
      → Owned id h
      → Owned id (set_last_screenshot j now h)
  unfolding Owned set_last_screenshot
  Owned-set_last_screenshot now r k = record {
    fresh = k.fresh;
    unset = k.unset;
    as_bridge =
        allowed j id r
          (λ n (b : NoBridge id h.bridges h.bridge_capabilities h.bridge_last_screenshot). record {
            not_bridge = b.not_bridge;
            no_capabilities = b.no_capabilities;
            no_screenshot = NotKey-put id j now h.bridge_last_screenshot n b.no_screenshot;
          })
          k.as_bridge;
    as_consumer = k.as_consumer;
    as_origin = k.as_origin;
  }

  pub Owned-set_subscription :
      (s : Subscription)
      → (j ≡ id → IsConsumer id h.conns)
      → Owned id h
      → Owned id (set_subscription j s h)
  unfolding Owned set_subscription
  Owned-set_subscription s r k = record {
    fresh = k.fresh;
    unset = k.unset;
    as_bridge = k.as_bridge;
    as_consumer =
        allowed j id r
          (λ n (b : NoConsumer id h.consumers h.consumer_subscriptions). record {
            not_consumer = b.not_consumer;
            no_subscription = NotKey-put id j s h.consumer_subscriptions n b.no_subscription;
          })
          k.as_consumer;
    as_origin = k.as_origin;
  }

  pub Owned-add_pending :
      (r : Value) → (j ≡ id → IsAlive id h.conns) → Owned id h → Owned id (add_pending r j h)
  unfolding Owned add_pending
  Owned-add_pending r a k = record {
    fresh = k.fresh;
    unset = k.unset;
    as_bridge = k.as_bridge;
    as_consumer = k.as_consumer;
    as_origin = allowed j id a (λ n. All-put same_key id r j h.pending_control n) k.as_origin;
  }

-- What stays true of either case.
pub lift : {A B R : Type 0} → (A → B) → A ⊎ R → B ⊎ R
lift f (inl a) = inl (f a)
lift f (inr r) = inr r

pub Owned-drop_request : (id : ℕ) (r : Value) (h : Host) → Owned id h → Owned id (drop_request r h)
unfolding Owned drop_request
Owned-drop_request id r h k = record {
  fresh = k.fresh;
  unset = k.unset;
  as_bridge = k.as_bridge;
  as_consumer = k.as_consumer;
  as_origin = lift (All-erase same_key id r h.pending_control) k.as_origin;
}
