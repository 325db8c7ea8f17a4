-- ===== src/Host/Consumers.antt =====
-- The messages of an authenticated consumer.
use Prim.Native.String.{◌++◌ as ◌<>◌}
use code_bridge.Base.{
  ℕ, String, Bool, true, false, ◌&&◌, ◌||◌, Option, none, some, List, [], ◌∷◌, ◌++◌, length, nat_eq,
  ◌==◌, if◌then◌else◌, find, put,
}
use code_bridge.Js.Value.{Value, string, array, nil, cons, get_field, or_value}
use code_bridge.Js.Print.{to_text, lower_value, decimal}
use code_bridge.Host.{
  Host, Session, Subscription, relayed, subscribe_ack, control_failed, control_forwarded, Ran,
  ended, threw, conn_of, post, is_ready, has_type,
}
use code_bridge.Host.Levels.{bridge_has_capability}
use code_bridge.Host.Routing.{capabilities_in}
use code_bridge.Host.Bridges.{is_array, with_field, on_control_result, add_pending}

-- `FILTER_LEVELS.includes(raw) ? raw : 'off'`
unfoldable pub filter_level : Value → String
filter_level llm_filter =
    let raw = lower_value (or_value llm_filter (string "off")) in
    if raw == "off" || raw == "minimal" || raw == "aggressive" then raw else "off"

unfoldable pub set_subscription : ℕ → Subscription → Host → Host
set_subscription id subscription h = record h {
  consumer_subscriptions = put nat_eq id subscription h.consumer_subscriptions;
}

-- `join` throws on what is no array, before the answer.
unfoldable pub acknowledge_subscribe : Bool → ℕ → Subscription → Host → Ran
acknowledge_subscribe true id subscription h =
    ended (post id (subscribe_ack (conn_of id h).client_id subscription) h)
acknowledge_subscribe false id subscription h = threw h

unfoldable pub on_subscribe : ℕ → Value → Host → Ran
on_subscribe id message h =
    let subscription : Subscription = record {
      levels = or_value (get_field "levels" message) (array (cons (string "errors") nil));
      capabilities = or_value (get_field "capabilities" message) (array nil);
      llm_filter = filter_level (get_field "llm_filter" message);
    } in
    acknowledge_subscribe (is_array subscription.levels && is_array subscription.capabilities) id
      subscription (set_subscription id subscription h)

-- Whether a bridge is a target of a control request; `none` is a TypeError.
unfoldable pub is_target : ℕ → Host → Option Bool
is_target b h =
    if is_ready b h
    then bridge_has_capability (capabilities_in (find nat_eq b h.bridge_capabilities)) "control"
    else some false

abbrev pub and_target : ℕ → Option Bool → Option (List ℕ) → Option (List ℕ)
and_target b (some false) bs = bs
and_target b (some true) (some bs) = some (b ∷ bs)
and_target b _ bs = none

unfoldable pub targets_of : List ℕ → Host → Option (List ℕ)
targets_of [] h = some []
targets_of (b ∷ bs) h = and_target b (is_target b h) (targets_of bs h)

-- A control request goes into the queue of an HTTP session, or out to a socket.
unfoldable pub enqueue_or_post : Value → ℕ → Option Session → Host → Host
enqueue_or_post payload b (some s) h = record h {
  sessions = put nat_eq b (record s { queue = s.queue ++ payload ∷ [] }) h.sessions;
}
enqueue_or_post payload b none h = post b (relayed payload) h

unfoldable pub forward_to : Value → ℕ → Host → Host
forward_to payload b h = enqueue_or_post payload b (find nat_eq b h.sessions) h

unfoldable pub forward_to_all : Value → List ℕ → Host → Host
forward_to_all payload [] h = h
forward_to_all payload (b ∷ bs) h = forward_to_all payload bs (forward_to payload b h)

-- `message.id || `${clientId}-${Date.now()}``
unfoldable pub request_id_of : ℕ → Value → Value → Value
request_id_of now client_id message =
    or_value (get_field "id" message) (string (to_text client_id <> "-" <> decimal now))

unfoldable pub forward_control : ℕ → Value → Value → Option (List ℕ) → Host → Ran
forward_control id request_id payload none h = threw h
forward_control id request_id payload (some []) h =
    ended (post id (control_failed request_id "No bridge with control capability is connected") h)
forward_control id request_id payload (some (b ∷ bs)) h = ended (
    post id (control_forwarded request_id (length (b ∷ bs)))
      (forward_to_all payload (b ∷ bs) (add_pending request_id id h)))

unfoldable pub on_consumer_control : ℕ → ℕ → Value → Host → Ran
on_consumer_control now id message h =
    let request_id = request_id_of now (conn_of id h).client_id message in
    let payload =
      with_field "id" request_id (with_field "type" (string "control_request") message) in
    forward_control id request_id payload (targets_of h.bridges h) h

unfoldable pub from_consumer : ℕ → ℕ → Value → Host → Ran
from_consumer now id message h =
    if has_type "subscribe" message
    then on_subscribe id message h
    else if has_type "control_request" message || has_type "control" message
    then on_consumer_control now id message h
    else if has_type "control_result" message
    then ended (on_control_result (get_field "id" message) (relayed message) h)
    else ended h
