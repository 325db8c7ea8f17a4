-- ===== src/Host/Admitted.antt =====
-- A socket that is admitted or refused, and the messages of one that was.
use Prim.Native.String.{◌++◌}
use code_bridge.Base.{
  put, ℕ, ◌≡◌, refl, sym, ap, subst, inl, inr, true, false, Option, none, some, nat_eq, Bool-cases,
}
use code_bridge.Js.Value.{Value, null, get_field, or_value, string}
use code_bridge.Js.Print.{to_text, decimal}
use code_bridge.Host.{Host, Conn, Role, bridge, consumer, other, conn_of, set_conn, has_type}
use code_bridge.Host.Routing.{equals_text}
use code_bridge.Host.Messages.{role_of, enrol, greet, accept, authenticate, dispatch, handle}
use code_bridge.Host.Runs.{is_closed}
use code_bridge.Host.Outside.{if-both, All-add}
use code_bridge.Host.Unsent.{left}
use code_bridge.Host.Owned.{Owned, conn_in, IsAlive, NoBridge, NoConsumer, same_or_not, allowed}
use code_bridge.Host.Held.{Owned-post, Owned-from_bridge, Owned-from_consumer}
use code_bridge.Host.Roles.{conn_in-put, Owned-update, Owned-close_conn, role_set}

module _ (id j : ℕ) (h : Host) where
  Owned-enrol :
      (r : Role)
      → (j ≡ id → ((conn_in id h.conns).role ≡ some r) × IsAlive id h.conns)
      → Owned id h
      → Owned id (enrol r j h)
  unfolding Owned enrol
  Owned-enrol bridge a k = record {
    fresh = k.fresh;
    unset = k.unset;
    as_bridge =
        allowed j id (λ e. inr (a e))
          (λ n (b : NoBridge id h.bridges h.bridge_capabilities h.bridge_last_screenshot). record {
            not_bridge = All-add id j h.bridges n b.not_bridge;
            no_capabilities = b.no_capabilities;
            no_screenshot = b.no_screenshot;
          })
          k.as_bridge;
    as_consumer = k.as_consumer;
    as_origin = k.as_origin;
  }
  Owned-enrol consumer a k = record {
    fresh = k.fresh;
    unset = k.unset;
    as_bridge = k.as_bridge;
    as_consumer =
        allowed j id a
          (λ n (b : NoConsumer id h.consumers h.consumer_subscriptions). record {
            not_consumer = All-add id j h.consumers n b.not_consumer;
            no_subscription = b.no_subscription;
          })
          k.as_consumer;
    as_origin = k.as_origin;
  }
  Owned-enrol other a k = k

  Owned-greet : (r : Role) (v : Value) → Owned id h → Owned id (greet r v j h)
  unfolding greet
  Owned-greet other v k = Owned-close_conn id j h k
  Owned-greet bridge v k = Owned-post id j _ h k
  Owned-greet consumer v k = Owned-post id j _ h k

-- The socket j, which is not authenticated, becomes so, with a role.
module _ (id j : ℕ) (r : Role) (c : Conn) (h : Host) where
  Owned-set_role :
      (conn_in j h.conns).is_authenticated ≡ false
      → IsAlive j h.conns
      → c.is_authenticated ≡ true
      → c.role ≡ some r
      → is_closed c.ready ≡ is_closed (conn_in j h.conns).ready
      → Owned id h
      → Owned id (set_conn j c h)
  Owned-set_role u a t e o k = elim (same_or_not j id) [
    | inl q ↦ subst (λ i. Owned i h → Owned i (set_conn j c h)) q (role_set j r c h u a t e o) k
    | inr n ↦ Owned-update id j c h (λ q. absurd (n q)) k
  ]

  Owned-admit :
      (conn_in j h.conns).is_authenticated ≡ false
      → IsAlive j h.conns
      → c.is_authenticated ≡ true
      → c.role ≡ some r
      → is_closed c.ready ≡ is_closed (conn_in j h.conns).ready
      → Owned id h
      → Owned id (enrol r j (set_conn j c h))
  unfolding set_conn
  Owned-admit u a t e o k =
      let conns = put nat_eq j c h.conns in
      let role : (conn_in j conns).role ≡ some r = rw (conn_in-put j c h.conns) e in
      let alive : IsAlive j conns = rw (conn_in-put j c h.conns, o) a in
      Owned-enrol id j (set_conn j c h) r
        (λ q. subst (λ i. ((conn_in i conns).role ≡ some r) × IsAlive i conns) q (role, alive))
        (Owned-set_role u a t e o k)

Owned-accept :
    (id now j : ℕ) (m : Value) (h : Host)
    → (conn_in j h.conns).is_authenticated ≡ false
    → IsAlive j h.conns
    → Owned id h
    → Owned id (accept now j m h)
unfolding accept conn_of set_conn
Owned-accept id now j m h u a k =
    let given = or_value (get_field "role" m) (string "bridge") in
    let name = or_value (get_field "clientId" m) (string (to_text given ++ "-" ++ decimal now)) in
    let c : Conn = record (conn_in j h.conns) {
      is_authenticated = true;
      role = some (role_of given);
      client_id = name;
      auth_timer = false;
    } in
    let k' = Owned-admit id j (role_of given) c h u a refl refl refl k in
    Owned-greet id j (enrol (role_of given) j (set_conn j c h)) (role_of given) name k'

Owned-authenticate :
    (id now j : ℕ) (m : Value) (h : Host)
    → (conn_in j h.conns).is_authenticated ≡ false
    → IsAlive j h.conns
    → Owned id h
    → Owned id (authenticate now j m h)
unfolding authenticate
Owned-authenticate id now j m h u a k =
    let refused = Owned-close_conn id j h k in
    if-both (Owned id) (has_type "auth" m) _ _
      (if-both (Owned id) (equals_text h.secret (get_field "secret" m)) _ _
        (Owned-accept id now j m h u a k) refused)
      refused

-- A message of the socket j, which is not closed.
module _ (id now j : ℕ) (m : Value) (h : Host) where
  Owned-dispatch :
      (r : Option Role)
      → (j ≡ id → (conn_in id h.conns).role ≡ r)
      → (j ≡ id → IsAlive id h.conns)
      → Owned id h
      → Owned id (left (dispatch r now j m h))
  Owned-dispatch none e a k = k
  Owned-dispatch (some bridge) e a k = Owned-from_bridge id now j m h (λ q. (e q, a q)) k
  Owned-dispatch (some consumer) e a k = Owned-from_consumer id now j m h (λ q. (e q, a q)) k
  Owned-dispatch (some other) e a k = k

  Owned-handle_dispatch :
      IsAlive j h.conns → Owned id h → Owned id (left (dispatch (conn_in j h.conns).role now j m h))
  Owned-handle_dispatch a k =
      Owned-dispatch (conn_in j h.conns).role (λ q. ap (λ i. (conn_in i h.conns).role) (sym q))
        (λ q. subst (λ i. IsAlive i h.conns) q a) k

pub Owned-handle :
    (id now j : ℕ) (m : Value) (h : Host)
    → IsAlive j h.conns
    → Owned id h
    → Owned id (left (handle now j m h))
unfolding handle conn_of
Owned-handle id now j null h a k = k
Owned-handle id now j m h a k = elim (Bool-cases (conn_in j h.conns).is_authenticated) [
  | inl e ↦ rw e (
      if-both (λ r. Owned id (left r)) (has_type "ping" m) _ _ (Owned-post id j _ h k)
        (Owned-handle_dispatch id now j m h a k))
  | inr e ↦ rw e (Owned-authenticate id now j m h e a k)
]
