-- ===== src/Host/Unsent.antt =====
-- How the handlers of the messages of others leave a socket that nobody authenticated.
use code_bridge.Base.{
  String, refl, ℕ, ◌≡◌, ◌≢◌, Bool, true, false, Option, none, some, List, [], ◌∷◌, find, put, erase,
  arith, All,
}
use code_bridge.Js.Value.{Value}
use code_bridge.Host.{
  has_type, BridgeMeta, Host, Frame, Ran, ended, threw, post, is_ready, same_key,
}
use code_bridge.Host.Routing.{Loop, finished, aborted, route_to}
use code_bridge.Host.Bridges.{
  set_last_screenshot, set_bridge_meta, acknowledge_hello, on_hello, drop_request, answer_request,
  on_control_result, add_pending, offered, on_bridge_control_request, send_to_all,
  forward_screenshot, forward_if_wanted, limit_screenshot, check_screenshot, on_screenshot, ran_of,
  on_event, from_bridge,
}
use code_bridge.Host.Outside.{
  found, All-found, Outside-consumers, Outside, if-both, Outside-post, left_by, Outside-route_to,
}

abbrev pub left : Ran → Host
left (ended h) = h
left (threw h) = h

module _ {ℓ} {K : Type ℓ} (same : K → K → Bool) where
  All-find :
      (id : ℕ) (k : K) (ps : List (K × ℕ)) (j : ℕ)
      → All (λ (p : K × ℕ). p.1 ≢ id) ps
      → find same k ps ≡ some j
      → j ≢ id
  All-find id k [] j h e = ground arith
  All-find id k ((i, m) ∷ ps) j (p, h) e = ground (arith, All-find id k ps j h)

  pub All-put :
      (id : ℕ) (k : K) (j : ℕ) (ps : List (K × ℕ))
      → j ≢ id
      → All (λ (p : K × ℕ). p.1 ≢ id) ps
      → All (λ (p : K × ℕ). p.1 ≢ id) (put same k j ps)
  All-put id k j [] n h = (n, tt)
  All-put id k j ((i, m) ∷ ps) n (p, h) = ground (arith, All-put id k j ps n h)

  pub All-erase :
      (id : ℕ) (k : K) (ps : List (K × ℕ))
      → All (λ (p : K × ℕ). p.1 ≢ id) ps
      → All (λ (p : K × ℕ). p.1 ≢ id) (erase same k ps)
  All-erase id k [] h = tt
  All-erase id k ((i, m) ∷ ps) (p, h) = ground (arith, All-erase id k ps h)

Outside-answer_request :
    (key : String) (id : ℕ) (r : Value) (f : Frame) (o : Option ℕ) (h : Host)
    → ((j : ℕ) → o ≡ some j → j ≢ id)
    → Outside key id h
    → Outside key id (answer_request r f o h)
unfolding Outside answer_request drop_request
Outside-answer_request key id r f none h n k = k
Outside-answer_request key id r f (some j) h n k =
    let k' = Outside-post key id j f h (n j refl) k in
    if-both (Outside key id) (is_ready j h) (drop_request r (post j f h)) h
      (record {
        same_secret = k'.same_secret;
        unauthenticated = k'.unauthenticated;
        not_consumer = k'.not_consumer;
        not_bridge = k'.not_bridge;
        not_awaited = All-erase same_key id r (post j f h).pending_control k'.not_awaited;
        unsent = k'.unsent;
      })
      k

pub Outside-on_control_result :
    (key : String) (id : ℕ) (r : Value) (f : Frame) (h : Host)
    → Outside key id h
    → Outside key id (on_control_result r f h)
unfolding Outside on_control_result
Outside-on_control_result key id r f h k =
    Outside-answer_request key id r f _ h
      (λ j. All-find same_key id r h.pending_control j k.not_awaited) k

pub Outside-add_pending :
    (key : String) (id j : ℕ) (r : Value) (h : Host)
    → j ≢ id
    → Outside key id h
    → Outside key id (add_pending r j h)
unfolding Outside add_pending
Outside-add_pending key id j r h n k = record {
  same_secret = k.same_secret;
  unauthenticated = k.unauthenticated;
  not_consumer = k.not_consumer;
  not_bridge = k.not_bridge;
  not_awaited = All-put same_key id r j h.pending_control n k.not_awaited;
  unsent = k.unsent;
}

Outside-ran_of :
    (key : String) (id : ℕ) (l : Loop)
    → Outside key id (left_by l)
    → Outside key id (left (ran_of l))
Outside-ran_of key id (aborted h) k = k
Outside-ran_of key id (finished cs h) k = k

pub Outside-routed :
    (key : String) (id now b : ℕ) (f : Option Frame) (m : Value) (h : Host)
    → Outside key id h
    → Outside key id (left (ran_of (route_to now f m b h.consumers h)))
Outside-routed key id now b f m h k =
    Outside-ran_of key id (route_to now f m b h.consumers h)
      (Outside-route_to key id now b f m h.consumers h (Outside-consumers key id h k) k)

-- The messages of the bridge j.
module _ (key : String) (id now j : ℕ) (n : j ≢ id) where
  Outside-set_bridge_meta :
      (meta : BridgeMeta) (h : Host) → Outside key id h → Outside key id (set_bridge_meta j meta h)
  unfolding Outside set_bridge_meta
  Outside-set_bridge_meta meta h k = k

  Outside-acknowledge_hello :
      (b : Bool) (meta : BridgeMeta) (h : Host)
      → Outside key id h
      → Outside key id (left (acknowledge_hello b j meta h))
  unfolding acknowledge_hello
  Outside-acknowledge_hello true meta h k = Outside-post key id j _ h n k
  Outside-acknowledge_hello false meta h k = k

  Outside-on_hello :
      (m : Value) (h : Host) → Outside key id h → Outside key id (left (on_hello j m h))
  unfolding on_hello
  Outside-on_hello m h k = Outside-acknowledge_hello _ _ _ (Outside-set_bridge_meta _ h k)

  Outside-offered :
      (r : Value) (l : Loop) → Outside key id (left_by l) → Outside key id (left (offered j r l))
  unfolding offered
  Outside-offered r (aborted h) k = k
  Outside-offered r (finished [] h) k = Outside-post key id j _ h n k
  Outside-offered r (finished (c ∷ cs) h) k = Outside-add_pending key id j r h n k

  Outside-send_to_all :
      (f : Frame) (cs : List ℕ) (h : Host)
      → All (λ c. c ≢ id) cs
      → Outside key id h
      → Outside key id (send_to_all f cs h)
  unfolding send_to_all
  Outside-send_to_all f [] h ns k = k
  Outside-send_to_all f (c ∷ cs) h (p, ns) k =
      Outside-send_to_all f cs (post c f h) ns (Outside-post key id c f h p k)

  Outside-set_last_screenshot :
      (h : Host) → Outside key id h → Outside key id (set_last_screenshot j now h)
  unfolding Outside set_last_screenshot
  Outside-set_last_screenshot h k = k

  Outside-forward_screenshot :
      (m : Value) (cs : List ℕ) (h : Host)
      → All (λ c. c ≢ id) cs
      → Outside key id h
      → Outside key id (forward_screenshot now j m cs h)
  unfolding forward_screenshot
  Outside-forward_screenshot m cs h ns k =
      let k' = Outside-set_last_screenshot h k in
      if-both (Outside key id) _ _ _ (Outside-send_to_all _ cs _ ns k')
        (Outside-post key id j _ _ n k')

  Outside-forward_if_wanted :
      (m : Value) (l : Loop)
      → All (λ c. c ≢ id) (found l)
      → Outside key id (left_by l)
      → Outside key id (left (forward_if_wanted now j m l))
  unfolding forward_if_wanted
  Outside-forward_if_wanted m (aborted h) ns k = k
  Outside-forward_if_wanted m (finished [] h) ns k = Outside-post key id j _ h n k
  Outside-forward_if_wanted m (finished (c ∷ cs) h) ns k =
      Outside-forward_screenshot m (c ∷ cs) h ns k

  Outside-limit_screenshot :
      (m : Value) (o : Option ℕ) (h : Host)
      → Outside key id h
      → Outside key id (left (limit_screenshot now j m o h))
  unfolding limit_screenshot
  Outside-limit_screenshot m (some ms) h k = Outside-post key id j _ h n k
  Outside-limit_screenshot m none h k =
      let ns = Outside-consumers key id h k in
      Outside-forward_if_wanted m _ (All-found id now j none m h.consumers h ns)
        (Outside-route_to key id now j none m h.consumers h ns k)

  Outside-check_screenshot :
      (m : Value) (o : Option Bool) (h : Host)
      → Outside key id h
      → Outside key id (left (check_screenshot now j m o h))
  unfolding check_screenshot
  Outside-check_screenshot m none h k = k
  Outside-check_screenshot m (some false) h k = Outside-post key id j _ h n k
  Outside-check_screenshot m (some true) h k = Outside-limit_screenshot m _ h k

  pub Outside-from_bridge :
      (m : Value) (h : Host) → Outside key id h → Outside key id (left (from_bridge now j m h))
  unfolding from_bridge on_bridge_control_request on_screenshot on_event
  Outside-from_bridge m h k =
      let P : Ran → Type 0 = λ r. Outside key id (left r) in
      let ns = Outside-consumers key id h k in
      if-both P (has_type "hello" m) _ _ (Outside-on_hello m h k) (
        if-both P (has_type "control_result" m) _ _ (Outside-on_control_result key id _ _ h k) (
          if-both P (has_type "control_request" m) _ _
            (Outside-offered _ _ (Outside-route_to key id now j _ _ h.consumers h ns k))
            (if-both P (has_type "screenshot" m) _ _ (Outside-check_screenshot m _ h k)
              (Outside-routed key id now j _ m h k))))
