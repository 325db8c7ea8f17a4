-- ===== src/Host/Held.antt =====
-- How the handlers of messages keep the sockets to what their roles allow.
use code_bridge.Base.{
  ◌<◌, ◌++◌, ℕ, ◌≡◌, refl, sym, subst, ◌⊎◌, inr, Bool, true, false, ◌||◌, Option, none, some, List,
  [], ◌∷◌, nat_eq, find, put, arith,
}
use code_bridge.Js.Value.{string, Value, get_field}
use code_bridge.Host.{
  relayed, Host, Session, BridgeMeta, Subscription, Frame, Ran, post, is_ready, has_type, bridge,
}
use code_bridge.Host.Routing.{Loop, finished, aborted, route_to}
use code_bridge.Host.Bridges.{
  with_field, on_hello, acknowledge_hello, answer_request, on_control_result, offered,
  on_bridge_control_request, forward_if_wanted, limit_screenshot, check_screenshot, on_screenshot,
  ran_of, on_event, from_bridge,
}
use code_bridge.Host.Consumers.{
  acknowledge_subscribe, on_subscribe, enqueue_or_post, forward_to, forward_to_all, forward_control,
  on_consumer_control, from_consumer,
}
use code_bridge.Host.Static.{static, static-post, static-route_to}
use code_bridge.Host.Limits.{static-forward_screenshot}
use code_bridge.Host.Outside.{left_by, if-both, has_session}
use code_bridge.Host.Unsent.{left}
use code_bridge.Host.Owned.{
  IsUnused, NoBridge, conn_in, Owned, Owned-static, IsAlive, IsBridge, IsConsumer,
  Owned-set_bridge_meta, Owned-set_last_screenshot, Owned-set_subscription, Owned-add_pending,
  Owned-drop_request,
}

pub Owned-post : (id j : ℕ) (f : Frame) (h : Host) → Owned id h → Owned id (post j f h)
Owned-post id j f h = Owned-static id h _ (static-post j f h)

Owned-answer_request :
    (id : ℕ) (r : Value) (f : Frame) (o : Option ℕ) (h : Host)
    → Owned id h
    → Owned id (answer_request r f o h)
unfolding answer_request
Owned-answer_request id r f none h k = k
Owned-answer_request id r f (some j) h k =
    if-both (Owned id) (is_ready j h) _ h (Owned-drop_request id r _ (Owned-post id j f h k)) k

pub Owned-on_control_result :
    (id : ℕ) (r : Value) (f : Frame) (h : Host) → Owned id h → Owned id (on_control_result r f h)
unfolding on_control_result
Owned-on_control_result id r f h k = Owned-answer_request id r f _ h k

Owned-ran_of : (id : ℕ) (l : Loop) → Owned id (left_by l) → Owned id (left (ran_of l))
Owned-ran_of id (aborted h) k = k
Owned-ran_of id (finished cs h) k = k

pub Owned-routed :
    (id now b : ℕ) (f : Option Frame) (m : Value) (h : Host)
    → Owned id h
    → Owned id (left (ran_of (route_to now f m b h.consumers h)))
Owned-routed id now b f m h k =
    Owned-ran_of id (route_to now f m b h.consumers h)
      (Owned-static id h _ (static-route_to now b f m h.consumers h) k)

-- What a socket is does not depend on what is sent and routed.
IsBridge-static :
    (id : ℕ) (h k : Host)
    → static k ≡ static h
    → IsBridge id h.conns h.sessions
    → IsBridge id k.conns k.sessions
unfolding static
IsBridge-static id h k e = subst (λ (s : Host). IsBridge id s.conns s.sessions) (sym e)

has_session-set :
    (id b : ℕ) (s t : Session) (ss : List (ℕ × Session))
    → find nat_eq b ss ≡ some s
    → has_session id (put nat_eq b t ss) ≡ has_session id ss
has_session-set id b s t [] e = absurd (ground arith)
has_session-set id b s t ((i, u) ∷ ss) e = ground (arith, has_session-set id b s t ss)

-- The same sessions, with another queue or time for one of them.
pub Owned-set_session :
    (id b : ℕ) (s t : Session) (h : Host)
    → find nat_eq b h.sessions ≡ some s
    → Owned id h
    → Owned id (record h { sessions = put nat_eq b t h.sessions })
unfolding Owned
Owned-set_session id b s t h e k = record {
  fresh =
      subst (λ q. (id < h.next) ⊎ IsUnused (conn_in id h.conns) q)
        (sym (has_session-set id b s t h.sessions e)) k.fresh;
  unset = k.unset;
  as_bridge =
      subst
        (λ q.
          NoBridge id h.bridges h.bridge_capabilities h.bridge_last_screenshot
          ⊎ ((q ≡ true) ⊎ (((conn_in id h.conns).role ≡ some bridge) × IsAlive id h.conns)))
        (sym (has_session-set id b s t h.sessions e)) k.as_bridge;
  as_consumer = k.as_consumer;
  as_origin = k.as_origin;
}

Owned-enqueue_or_post :
    (id b : ℕ) (m : Value) (o : Option Session) (h : Host)
    → find nat_eq b h.sessions ≡ o
    → Owned id h
    → Owned id (enqueue_or_post m b o h)
unfolding enqueue_or_post
Owned-enqueue_or_post id b m none h e k = Owned-post id b _ h k
Owned-enqueue_or_post id b m (some s) h e k =
    Owned-set_session id b s (record s { queue = s.queue ++ m ∷ [] }) h e k

Owned-forward_to_all :
    (id : ℕ) (m : Value) (bs : List ℕ) (h : Host) → Owned id h → Owned id (forward_to_all m bs h)
unfolding forward_to_all forward_to
Owned-forward_to_all id m [] h k = k
Owned-forward_to_all id m (b ∷ bs) h k =
    Owned-forward_to_all id m bs _ (Owned-enqueue_or_post id b m _ h refl k)

-- The messages of the socket j, which is not closed, as a bridge or as a consumer.
module _ (id now j : ℕ) where
  Owned-acknowledge_hello :
      (b : Bool) (m : BridgeMeta) (h : Host)
      → Owned id h
      → Owned id (left (acknowledge_hello b j m h))
  unfolding acknowledge_hello
  Owned-acknowledge_hello true m h k = Owned-post id j _ h k
  Owned-acknowledge_hello false m h k = k

  Owned-offered :
      (r : Value) (l : Loop)
      → (j ≡ id → IsAlive id (left_by l).conns)
      → Owned id (left_by l)
      → Owned id (left (offered j r l))
  unfolding offered
  Owned-offered r (aborted h) a k = k
  Owned-offered r (finished [] h) a k = Owned-post id j _ h k
  Owned-offered r (finished (c ∷ cs) h) a k = Owned-add_pending id j h r a k

  Owned-forward_if_wanted :
      (m : Value) (l : Loop)
      → (j ≡ id → IsBridge id (left_by l).conns (left_by l).sessions)
      → Owned id (left_by l)
      → Owned id (left (forward_if_wanted now j m l))
  unfolding forward_if_wanted
  Owned-forward_if_wanted m (aborted h) a k = k
  Owned-forward_if_wanted m (finished [] h) a k = Owned-post id j _ h k
  Owned-forward_if_wanted m (finished (c ∷ cs) h) a k =
      Owned-static id _ _ (static-forward_screenshot now j m (c ∷ cs) h)
        (Owned-set_last_screenshot id j h now a k)

  Owned-limit_screenshot :
      (m : Value) (o : Option ℕ) (h : Host)
      → (j ≡ id → IsBridge id h.conns h.sessions)
      → Owned id h
      → Owned id (left (limit_screenshot now j m o h))
  unfolding limit_screenshot
  Owned-limit_screenshot m (some ms) h a k = Owned-post id j _ h k
  Owned-limit_screenshot m none h a k =
      let l = route_to now none m j h.consumers h in
      let same = static-route_to now j none m h.consumers h in
      Owned-forward_if_wanted m l (λ e. IsBridge-static id h (left_by l) same (a e))
        (Owned-static id h (left_by l) same k)

  Owned-check_screenshot :
      (m : Value) (o : Option Bool) (h : Host)
      → (j ≡ id → IsBridge id h.conns h.sessions)
      → Owned id h
      → Owned id (left (check_screenshot now j m o h))
  unfolding check_screenshot
  Owned-check_screenshot m none h a k = k
  Owned-check_screenshot m (some false) h a k = Owned-post id j _ h k
  Owned-check_screenshot m (some true) h a k = Owned-limit_screenshot m _ h a k

  pub Owned-from_bridge :
      (m : Value) (h : Host)
      → (j ≡ id → ((conn_in id h.conns).role ≡ some bridge) × IsAlive id h.conns)
      → Owned id h
      → Owned id (left (from_bridge now j m h))
  unfolding from_bridge on_hello on_bridge_control_request on_screenshot on_event static
  Owned-from_bridge m h a k =
      let P : Ran → Type 0 = λ r. Owned id (left r) in
      let m' = with_field "level" (string "info") m in
      let l = route_to now (some (relayed m)) m' j h.consumers h in
      let same : static (left_by l) ≡ static h =
        static-route_to now j (some (relayed m)) m' h.consumers h in
      if-both P (has_type "hello" m) _ _
        (Owned-acknowledge_hello _ _ _ (Owned-set_bridge_meta id j h _ (λ e. inr (a e)) k))
        (if-both P (has_type "control_result" m) _ _ (Owned-on_control_result id _ _ h k) (
          if-both P (has_type "control_request" m) _ _
            (Owned-offered (get_field "id" m) l
              (λ e. subst (λ (s : Host). IsAlive id s.conns) (sym same) (a e).1)
              (Owned-static id h (left_by l) same k))
            (if-both P (has_type "screenshot" m) _ _
              (Owned-check_screenshot m _ h (λ e. inr (a e)) k) (Owned-routed id now j _ m h k))))

  Owned-acknowledge_subscribe :
      (b : Bool) (s : Subscription) (h : Host)
      → Owned id h
      → Owned id (left (acknowledge_subscribe b j s h))
  unfolding acknowledge_subscribe
  Owned-acknowledge_subscribe true s h k = Owned-post id j _ h k
  Owned-acknowledge_subscribe false s h k = k

  Owned-forward_control :
      (r payload : Value) (o : Option (List ℕ)) (h : Host)
      → (j ≡ id → IsAlive id h.conns)
      → Owned id h
      → Owned id (left (forward_control j r payload o h))
  unfolding forward_control
  Owned-forward_control r payload none h a k = k
  Owned-forward_control r payload (some []) h a k = Owned-post id j _ h k
  Owned-forward_control r payload (some (b ∷ bs)) h a k =
      Owned-post id j _ _
        (Owned-forward_to_all id payload (b ∷ bs) _ (Owned-add_pending id j h r a k))

  pub Owned-from_consumer :
      (m : Value) (h : Host)
      → (j ≡ id → IsConsumer id h.conns)
      → Owned id h
      → Owned id (left (from_consumer now j m h))
  unfolding from_consumer on_subscribe on_consumer_control
  Owned-from_consumer m h a k =
      let P : Ran → Type 0 = λ r. Owned id (left r) in
      if-both P (has_type "subscribe" m) _ _
        (Owned-acknowledge_subscribe _ _ _ (Owned-set_subscription id j h _ a k))
        (if-both P (has_type "control_request" m || has_type "control" m) _ _
          (Owned-forward_control _ _ _ h (λ e. (a e).1) k)
          (if-both P (has_type "control_result" m) _ _ (Owned-on_control_result id _ _ h k) k))
