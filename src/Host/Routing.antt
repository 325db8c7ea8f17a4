-- ===== src/Host/Routing.antt =====
-- Which consumers get a message of a bridge, and the guard against too many of them.
use code_bridge.Base.{
  ℕ, suc, ◌+◌, String, Bool, true, false, not, ◌&&◌, ◌||◌, Option, none, some, List, [], ◌∷◌, ltb,
  nat_eq, ◌==◌, if◌then◌else◌, find,
}
use code_bridge.Js.Value.{Value, undefined, string, array, nil, cons, get_field, or_value}
use code_bridge.Js.Print.{lower_value}
use code_bridge.Host.{Host, Frame, Subscription, BridgeMeta, post, is_ready}
use code_bridge.Host.Levels.{
  subscription_includes_level, bridge_has_capability, consumer_wants_capability,
}

abbrev pub window_ms : ℕ
window_ms = 10_000

abbrev pub window_limit : ℕ
window_limit = 500

-- `value === text`
abbrev pub equals_text : String → Value → Bool
equals_text t (string s) = s == t
equals_text t v = false

-- The window of the events that were filtered, once this one is counted.
unfoldable pub count_event : ℕ → Host → Host
count_event now h =
    if ltb (h.window_start + window_ms) now
    then record h { window_start = now; window_count = 1 }
    else record h { window_count = suc h.window_count }

-- What a filter lets through, whether or not the window is overfull.
unfoldable pub passes : Bool → String → Value → Bool
passes overfull filter message =
    let lvl = lower_value (or_value (get_field "level" message) (string "")) in
    if overfull && not (filter == "off")
    then equals_text "error" (get_field "level" message)
    else if filter == "off"
    then true
    else if filter == "minimal"
    then not (lvl == "debug" || lvl == "log")
    else if filter == "aggressive"
    then not (lvl == "debug" || lvl == "log" || lvl == "info")
    else true

unfoldable pub filter_event_for_consumer : ℕ → Value → Subscription → Host → Bool × Host
filter_event_for_consumer now message consumer_meta h =
    let h' = count_event now h in
    (
      passes (ltb window_limit h'.window_count)
          (lower_value (or_value (string consumer_meta.llm_filter) (string "off"))) message,
      h',
    )

-- The types of message that need a capability.
abbrev pub needs_capability : String → Bool
needs_capability type =
    type == "pageview"
    || type == "screenshot"
    || type == "control"
    || type == "network"
    || type == "navigation"

abbrev pub capabilities_in : Option BridgeMeta → Value
capabilities_in none = undefined
capabilities_in (some m) = m.capabilities

-- `if (!test) return false;` before what follows; an exception of the test ends it.
abbrev pub and_if : Option Bool → Option Bool → Option Bool
and_if (some true) rest = rest
and_if (some false) rest = some false
and_if none rest = none

-- The tests after the filter: level, then capabilities. `none` is a TypeError.
unfoldable pub check_route : Value → Value → Value → Value → Option Bool
check_route levels requested_capabilities message bridge_caps =
    let message_type = lower_value (or_value (get_field "type" message) (string "")) in
    and_if
      (subscription_includes_level levels (or_value (get_field "level" message) (string "info")))
      (if needs_capability message_type
        then and_if (consumer_wants_capability requested_capabilities message_type)
            (bridge_has_capability bridge_caps message_type)
        else some true)

-- A consumer without a subscription gets errors only, and is not filtered.
unfoldable pub route_by : ℕ → Option Subscription → Value → Value → Host → Option Bool × Host
route_by now none message caps h =
    (check_route (array (cons (string "errors") nil)) (array nil) message caps, h)
route_by now (some s) message caps h =
    let (ok, h') = filter_event_for_consumer now message s h in
    (
      if ok
          then check_route (or_value s.levels (array (cons (string "errors") nil)))
              (or_value s.capabilities (array nil)) message caps
          else some false,
      h',
    )

-- `shouldRouteToConsumer`; the window may have changed, also where it throws.
unfoldable pub should_route_to_consumer : ℕ → ℕ → Value → ℕ → Host → Option Bool × Host
should_route_to_consumer now consumer message bridge h =
    route_by now (find nat_eq consumer h.consumer_subscriptions) message
      (capabilities_in (find nat_eq bridge h.bridge_capabilities)) h

-- How a loop over the consumers ends.
pub data Loop : Type 0 where
  finished : List ℕ → Host → Loop
  aborted : Host → Loop

abbrev pub and_also : ℕ → Loop → Loop
and_also c (finished cs h) = finished (c ∷ cs) h
and_also c (aborted h) = aborted h

abbrev pub send_if : Option Frame → ℕ → Host → Host
send_if none c h = h
send_if (some frame) c h = post c frame h

abbrev pub after_decision : Option Frame → ℕ → Option Bool → Host → Host
after_decision frame c (some true) h = send_if frame c h
after_decision frame c _ h = h

-- What is left of a loop, after the decision on one consumer.
abbrev pub proceed : ℕ → Option Bool → Host → Loop → Loop
proceed c none h rest = aborted h
proceed c (some false) h rest = rest
proceed c (some true) h rest = and_also c rest

-- The body of a loop over the consumers: the decision, and what it did.
unfoldable pub offer : ℕ → Option Frame → Value → ℕ → ℕ → Host → Option Bool × Host
offer now frame message bridge c h =
    if is_ready c h
    then (let (decision, h') = should_route_to_consumer now c message bridge h in
        (decision, after_decision frame c decision h'))
    else (some false, h)

-- The consumers that get a message, each of them sent the frame at once, if there is one.
unfoldable pub route_to : ℕ → Option Frame → Value → ℕ → List ℕ → Host → Loop
route_to now frame message bridge [] h = finished [] h
route_to now frame message bridge (c ∷ cs) h =
    let (decision, h') = offer now frame message bridge c h in
    proceed c decision h' (route_to now frame message bridge cs h')
