-- ===== src/Host/Delivery.antt =====
-- Who gets the event of a bridge.
use code_bridge.Base.{
  if-true, ltb, ◌+◌, suc, ℕ, ◌≡◌, All, subst, refl, ◌∙◌, ap, sym, String, Bool, true, false, ◌&&◌,
  Option, none, some, List, [], ◌∷◌, ◌++◌, map, keep, nat_eq, find, ◌==◌, arith, if◌then◌else◌,
  Bool-cases, inl, inr,
}
use mathlib.Core.List.{append-nil, append_assoc}
use code_bridge.Js.Value.{Value, string, array, nil, cons, or_value}
use code_bridge.Socket.{is_open}
use code_bridge.Host.{
  ready_by, ReadyState, Session, Host, Subscription, Frame, relayed, conn_of, is_ready, post,
}
use code_bridge.Host.Routing.{
  window_ms, Loop, finished, aborted, capabilities_in, check_route, passes, count_event,
  filter_event_for_consumer, route_by, should_route_to_consumer, after_decision, proceed, offer,
  route_to,
}
use code_bridge.Host.Overload.{filter_of}
use code_bridge.Host.Bridges.{ran_of, on_event}
use code_bridge.Host.Static.{same_if, static, static-route_by, static-offer}
use code_bridge.Host.Outside.{left_by, has_session}
use code_bridge.Host.Unsent.{left}

-- What the tests of level and capability say for a subscription.
unfoldable pub verdict : Option Subscription → Value → Value → Option Bool
verdict none m caps = check_route (array (cons (string "errors") nil)) (array nil) m caps
verdict (some s) m caps =
    check_route (or_value s.levels (array (cons (string "errors") nil)))
      (or_value s.capabilities (array nil)) m caps

abbrev is_unfiltered : Option Subscription → Bool
is_unfiltered none = true
is_unfiltered (some s) = filter_of s == "off"

abbrev is_yes : Option Bool → Bool
is_yes (some b) = b
is_yes none = false

abbrev is_decided : Option Bool → Bool
is_decided (some b) = true
is_decided none = false

passes-off :
    (overfull : Bool) (filter : String) (m : Value)
    → (filter == "off") ≡ true
    → passes overfull filter m ≡ true
unfolding passes
passes-off true filter m e = rw e refl
passes-off false filter m e = rw e refl

module _ (now b : ℕ) (m : Value) where
  abbrev pub verdict_for : ℕ → Host → Option Bool
  verdict_for c h =
      verdict (find nat_eq c h.consumer_subscriptions) m
        (capabilities_in (find nat_eq b h.bridge_capabilities))

  -- A consumer that is open, and that the message is for.
  abbrev pub gets : Host → ℕ → Bool
  gets h c = is_ready c h && is_yes (verdict_for c h)

  -- A consumer whose filter is off, and for which no test throws.
  abbrev pub IsCalm : Host → ℕ → Type 0
  IsCalm h c =
      (has_session c h.sessions ≡ false)
      × (is_unfiltered (find nat_eq c h.consumer_subscriptions) ≡ true)
      × (is_decided (verdict_for c h) ≡ true)

  gets-static : (h k : Host) (c : ℕ) → static k ≡ static h → gets k c ≡ gets h c
  unfolding static is_ready conn_of
  gets-static h k c e = ap (λ (s : Host). gets s c) e

  IsCalm-static :
      (h k : Host) (cs : List ℕ) → static k ≡ static h → All (IsCalm h) cs → All (IsCalm k) cs
  unfolding static
  IsCalm-static h k cs e = subst (λ (s : Host). All (IsCalm s) cs) (sym e)

  all_gets-static :
      (h k : Host) (cs : List ℕ) → static k ≡ static h → keep (gets k) cs ≡ keep (gets h) cs
  unfolding static is_ready conn_of
  all_gets-static h k cs e = ap (λ (s : Host). keep (gets s) cs) e

  route_by-unfiltered :
      (s : Option Subscription) (caps : Value) (h : Host)
      → is_unfiltered s ≡ true
      → (route_by now s m caps h).0 ≡ verdict s m caps
  unfolding route_by filter_event_for_consumer verdict
  route_by-unfiltered none caps h e = refl
  route_by-unfiltered (some s) caps h e =
      if-true (passes _ (filter_of s) m) _ _ (passes-off _ (filter_of s) m e)

  sent-route_by :
      (s : Option Subscription) (caps : Value) (h : Host)
      → (route_by now s m caps h).1.sent ≡ h.sent
  unfolding route_by filter_event_for_consumer count_event
  sent-route_by none caps h = refl
  sent-route_by (some s) caps h =
      same_if (λ (q : Host). q.sent) (ltb (h.window_start + window_ms) now)
        (record h { window_start = now; window_count = 1 })
        (record h { window_count = suc h.window_count }) h.sent refl refl

-- One frame for each of the consumers.
abbrev pub to_each : Frame → List ℕ → List (ℕ × Frame)
to_each f = map (λ c. (c, f))

-- Without a session a socket is ready when it is open.
ready_by-none :
    (s : Option Session) (r : ReadyState)
    → elim s [ none ↦ false | some k ↦ true ] ≡ false
    → ready_by s r ≡ is_open (some r)
ready_by-none none r e = refl
ready_by-none (some k) r e = ground arith

post-open :
    (c : ℕ) (f : Frame) (h : Host)
    → has_session c h.sessions ≡ false
    → is_ready c h ≡ true
    → (post c f h).sent ≡ h.sent ++ (c, f) ∷ []
unfolding post is_ready
post-open c f h n r =
    ap (λ (q : Host). q.sent)
      (if-true _ _ _ (sym (ready_by-none (find nat_eq c h.sessions) (conn_of c h).ready n) ∙ r))

-- What a consumer is sent, after that decision.
after_decision-sent :
    (c : ℕ) (f : Frame) (d : Option Bool) (h : Host)
    → has_session c h.sessions ≡ false
    → is_ready c h ≡ true
    → (after_decision (some f) c d h).sent ≡ h.sent ++ to_each f (if is_yes d then c ∷ [] else [])
after_decision-sent c f (some true) h n r = post-open c f h n r
after_decision-sent c f (some false) h n r = sym (append-nil h.sent)
after_decision-sent c f none h n r = sym (append-nil h.sent)

after_decision-static :
    (c : ℕ) (f : Frame) (d : Option Bool) (k h : Host)
    → static k ≡ static h
    → k.sent ≡ h.sent
    → has_session c h.sessions ≡ false
    → is_ready c h ≡ true
    → (after_decision (some f) c d k).sent ≡ h.sent ++ to_each f (if is_yes d then c ∷ [] else [])
unfolding static is_ready conn_of
after_decision-static c f d k h e p n r =
    after_decision-sent c f d k (ap (λ (q : Host). has_session c q.sessions) e ∙ n)
      (ap (is_ready c) e ∙ r)
    ∙ ap (λ xs. xs ++ to_each f (if is_yes d then c ∷ [] else [])) p

left_by-proceed :
    (c : ℕ) (d : Option Bool) (h : Host) (l : Loop)
    → is_decided d ≡ true
    → left_by (proceed c d h l) ≡ left_by l
left_by-proceed c none h l e = ground arith
left_by-proceed c (some false) h l e = refl
left_by-proceed c (some true) h (finished cs k) e = refl
left_by-proceed c (some true) h (aborted k) e = refl

to_each-first :
    (f : Frame) (g : Bool) (c : ℕ) (cs : List ℕ)
    → to_each f (if g then c ∷ [] else []) ++ to_each f cs ≡ to_each f (if g then c ∷ cs else cs)
to_each-first f true c cs = refl
to_each-first f false c cs = refl

module _ (now b : ℕ) (m : Value) (f : Frame) where
  -- The body of the loop, for a calm consumer: it is decided, and the consumer gets what it gets.
  offer-decided :
      (c : ℕ) (h : Host) → IsCalm now b m h c → is_decided (offer now (some f) m b c h).0 ≡ true
  unfolding offer should_route_to_consumer
  offer-decided c h (n, u, d) = elim (Bool-cases (is_ready c h)) [
    | inl r ↦ rw r (ap is_decided (route_by-unfiltered now b m _ _ h u) ∙ d)
    | inr r ↦ rw r refl
  ]

  offer-sent :
      (c : ℕ) (h : Host)
      → IsCalm now b m h c
      → (offer now (some f) m b c h).1.sent
        ≡ h.sent ++ to_each f (if gets now b m h c then c ∷ [] else [])
  unfolding offer should_route_to_consumer
  offer-sent c h (n, u, d) = elim (Bool-cases (is_ready c h)) [
    | inl r ↦ rw r (
        after_decision-static c f (route_by now _ m _ h).0 (route_by now _ m _ h).1 h
          (static-route_by now _ m _ h) (sent-route_by now b m _ _ h) n r
        ∙ ap (λ o. h.sent ++ to_each f (if is_yes o then c ∷ [] else []))
            (route_by-unfiltered now b m _ _ h u))
    | inr r ↦ rw r (sym (append-nil h.sent))
  ]

  route_to-sent :
      (cs : List ℕ) (h : Host)
      → All (IsCalm now b m h) cs
      → (left_by (route_to now (some f) m b cs h)).sent
        ≡ h.sent ++ to_each f (keep (gets now b m h) cs)
  unfolding route_to
  route_to-sent [] h k = sym (append-nil h.sent)
  route_to-sent (c ∷ cs) h (k, ks) =
      let (d, h') = offer now (some f) m b c h in
      let e : static h' ≡ static h = static-offer now b c (some f) m h in
      let rest = route_to now (some f) m b cs h' in
      ap (λ (q : Host). q.sent) (left_by-proceed c d h' rest (offer-decided c h k))
      ∙ route_to-sent cs h' (IsCalm-static now b m h h' cs e ks)
      ∙ ap (λ xs. h'.sent ++ to_each f xs) (all_gets-static now b m h h' cs e)
      ∙ ap (λ xs. xs ++ to_each f (keep (gets now b m h) cs)) (offer-sent c h k)
      ∙ append_assoc h.sent _ _
      ∙ ap (λ xs. h.sent ++ xs) (to_each-first f (gets now b m h c) c _)

left-ran_of : (l : Loop) → left (ran_of l) ≡ left_by l
left-ran_of (finished cs h) = refl
left-ran_of (aborted h) = refl

-- Where the filter of every consumer is off, none of them is an HTTP session and no test throws, an event of a
-- bridge is sent as it came in to each open consumer whose levels and capabilities ask for it, once for each
-- time it stands in the collection and in its order, and nothing else is sent. The collection of the consumers, the
-- subscriptions and what the bridge announced are those before the event.
pub event-delivered :
    (now b : ℕ) (m : Value) (h : Host)
    → All (IsCalm now b m h) h.consumers
    → (left (on_event now b m h)).sent
      ≡ h.sent ++ to_each (relayed m) (keep (gets now b m h) h.consumers)
unfolding on_event
event-delivered now b m h k =
    ap (λ (q : Host). q.sent) (left-ran_of (route_to now (some (relayed m)) m b h.consumers h))
    ∙ route_to-sent now b m (relayed m) h.consumers h k
