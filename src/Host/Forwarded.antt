-- ===== src/Host/Forwarded.antt =====
-- How the handlers of a consumer's messages leave a socket that nobody authenticated.
use code_bridge.Base.{
  nat_eq_iff, Bool-cases, add, refl, ℕ, String, ◌≡◌, ◌≢◌, subst, ◌⊎◌, inl, inr, Bool, true, false,
  Option, none, some, List, [], ◌∷◌, nat_eq, find, put, arith, All, ◌||◌,
}
use code_bridge.Js.Value.{Value}
use code_bridge.Host.{Host, Session, Ran, post, Subscription, has_type}
use code_bridge.Host.Consumers.{
  set_subscription, acknowledge_subscribe, on_subscribe, is_target, and_target, targets_of,
  enqueue_or_post, forward_to, forward_to_all, forward_control, on_consumer_control, from_consumer,
}
use code_bridge.Host.Bridges.{add_pending}
use code_bridge.Host.Outside.{add-harmless, Outside, has_session, if-both, Outside-post}
use code_bridge.Host.Unsent.{left, Outside-on_control_result, Outside-add_pending}

-- Bridges that a control request can go to without a message to the socket.
abbrev Harmless : ℕ → List ℕ → Host → Type 0
Harmless id bs h = All (λ b. b ≢ id) bs ⊎ (has_session id h.sessions ≡ true)

has_session-put :
    (id b : ℕ) (s : Session) (ss : List (ℕ × Session))
    → has_session id ss ≡ true
    → has_session id (put nat_eq b s ss) ≡ true
has_session-put id b s [] e = absurd (ground arith)
has_session-put id b s ((c, t) ∷ ss) e = ground (arith, has_session-put id b s ss)

pub set_session-harmless :
    (id b : ℕ) (s : Session) (bs : List ℕ) (ss : List (ℕ × Session))
    → All (λ b. b ≢ id) bs ⊎ (has_session id ss ≡ true)
    → All (λ b. b ≢ id) bs ⊎ (has_session id (put nat_eq b s ss) ≡ true)
set_session-harmless id b s bs ss (inl ns) = inl ns
set_session-harmless id b s bs ss (inr e) = inr (has_session-put id b s ss e)

has_session-new :
    (id : ℕ) (s : Session) (ss : List (ℕ × Session)) → has_session id (put nat_eq id s ss) ≡ true
has_session-new id s [] = ground arith
has_session-new id s ((c, t) ∷ ss) = ground (arith, has_session-new id s ss)

-- A session is a bridge from the start.
pub new_session-harmless :
    (id b : ℕ) (s : Session) (bs : List ℕ) (ss : List (ℕ × Session))
    → All (λ b. b ≢ id) bs ⊎ (has_session id ss ≡ true)
    → All (λ b. b ≢ id) (add nat_eq b bs) ⊎ (has_session id (put nat_eq b s ss) ≡ true)
new_session-harmless id b s bs ss h = elim (Bool-cases (nat_eq b id)) [
  | inl e ↦ inr (
      subst (λ i. has_session i (put nat_eq b s ss) ≡ true) ((nat_eq_iff b id).0 e)
        (has_session-new b s ss))
  | inr e ↦ set_session-harmless id b s (add nat_eq b bs) ss (add-harmless id b bs (ground arith) h)
]

no_session-other :
    (id b : ℕ) (ss : List (ℕ × Session))
    → has_session id ss ≡ true
    → find nat_eq b ss ≡ none
    → b ≢ id
no_session-other id b [] e q = absurd (ground arith)
no_session-other id b ((c, t) ∷ ss) e q = ground (arith, no_session-other id b ss)

Outside-enqueue_or_post :
    (key : String) (id b : ℕ) (m : Value) (o : Option Session) (h : Host)
    → (o ≡ none → b ≢ id)
    → Outside key id h
    → Outside key id (enqueue_or_post m b o h)
unfolding Outside enqueue_or_post
Outside-enqueue_or_post key id b m none h n k = Outside-post key id b _ h (n refl) k
Outside-enqueue_or_post key id b m (some s) h n k = record {
  same_secret = k.same_secret;
  unauthenticated = k.unauthenticated;
  not_consumer = k.not_consumer;
  not_bridge = set_session-harmless id b _ h.bridges h.sessions k.not_bridge;
  not_awaited = k.not_awaited;
  unsent = k.unsent;
}

Harmless-enqueue_or_post :
    (id b : ℕ) (m : Value) (o : Option Session) (bs : List ℕ) (h : Host)
    → Harmless id bs h
    → Harmless id bs (enqueue_or_post m b o h)
unfolding enqueue_or_post post
Harmless-enqueue_or_post id b m none bs h k = if-both (Harmless id bs) _ _ _ k k
Harmless-enqueue_or_post id b m (some s) bs h k = set_session-harmless id b _ bs h.sessions k

Outside-forward_to_all :
    (key : String) (id : ℕ) (m : Value) (bs : List ℕ) (h : Host)
    → Harmless id bs h
    → Outside key id h
    → Outside key id (forward_to_all m bs h)
unfolding forward_to_all forward_to
Outside-forward_to_all key id m [] h ns k = k
Outside-forward_to_all key id m (b ∷ bs) h (inl (n, ns)) k =
    Outside-forward_to_all key id m bs _ (inl ns)
      (Outside-enqueue_or_post key id b m _ h (λ e. n) k)
Outside-forward_to_all key id m (b ∷ bs) h (inr e) k =
    Outside-forward_to_all key id m bs _
      (Harmless-enqueue_or_post id b m (find nat_eq b h.sessions) bs h (inr e))
      (Outside-enqueue_or_post key id b m _ h (no_session-other id b h.sessions e) k)

-- The targets of a request, if finding them did not throw.
abbrev chosen : Option (List ℕ) → List ℕ
chosen none = []
chosen (some bs) = bs

All-and_target :
    (id b : ℕ) (t : Option Bool) (o : Option (List ℕ))
    → b ≢ id
    → All (λ b. b ≢ id) (chosen o)
    → All (λ b. b ≢ id) (chosen (and_target b t o))
All-and_target id b none o n h = tt
All-and_target id b (some false) o n h = h
All-and_target id b (some true) none n h = tt
All-and_target id b (some true) (some bs) n h = (n, h)

All-targets_of :
    (id : ℕ) (bs : List ℕ) (h : Host)
    → All (λ b. b ≢ id) bs
    → All (λ b. b ≢ id) (chosen (targets_of bs h))
unfolding targets_of
All-targets_of id [] h ns = tt
All-targets_of id (b ∷ bs) h (n, ns) =
    All-and_target id b (is_target b h) _ n (All-targets_of id bs h ns)

Harmless-targets_of :
    (id : ℕ) (bs : List ℕ) (h : Host) → Harmless id bs h → Harmless id (chosen (targets_of bs h)) h
Harmless-targets_of id bs h (inl ns) = inl (All-targets_of id bs h ns)
Harmless-targets_of id bs h (inr e) = inr e

pub Outside-bridges :
    (key : String) (id : ℕ) (h : Host) → Outside key id h → Harmless id h.bridges h
unfolding Outside
Outside-bridges key id h k = k.not_bridge

-- The messages of the consumer j.
module _ (key : String) (id now j : ℕ) (n : j ≢ id) where
  Outside-set_subscription :
      (s : Subscription) (h : Host) → Outside key id h → Outside key id (set_subscription j s h)
  unfolding Outside set_subscription
  Outside-set_subscription s h k = k

  Outside-acknowledge_subscribe :
      (b : Bool) (s : Subscription) (h : Host)
      → Outside key id h
      → Outside key id (left (acknowledge_subscribe b j s h))
  unfolding acknowledge_subscribe
  Outside-acknowledge_subscribe true s h k = Outside-post key id j _ h n k
  Outside-acknowledge_subscribe false s h k = k

  Outside-forward_control :
      (r payload : Value) (o : Option (List ℕ)) (h : Host)
      → Harmless id (chosen o) h
      → Outside key id h
      → Outside key id (left (forward_control j r payload o h))
  unfolding forward_control add_pending
  Outside-forward_control r payload none h ns k = k
  Outside-forward_control r payload (some []) h ns k = Outside-post key id j _ h n k
  Outside-forward_control r payload (some (b ∷ bs)) h ns k = Outside-post key id j _ _ n (
      Outside-forward_to_all key id payload (b ∷ bs) (add_pending r j h) ns
        (Outside-add_pending key id j r h n k))

  pub Outside-from_consumer :
      (m : Value) (h : Host) → Outside key id h → Outside key id (left (from_consumer now j m h))
  unfolding from_consumer on_subscribe on_consumer_control
  Outside-from_consumer m h k =
      let P : Ran → Type 0 = λ r. Outside key id (left r) in
      if-both P (has_type "subscribe" m) _ _
        (Outside-acknowledge_subscribe _ _ _ (Outside-set_subscription _ h k))
        (if-both P (has_type "control_request" m || has_type "control" m) _ _
          (Outside-forward_control _ _ _ h
            (Harmless-targets_of id h.bridges h (Outside-bridges key id h k)) k)
          (if-both P (has_type "control_result" m) _ _ (Outside-on_control_result key id _ _ h k)
            k))
