-- ===== src/Host/Bridges.antt =====
-- The messages of an authenticated bridge.
use Prim.Native.String.{◌++◌ as ◌<>◌}
use code_bridge.Base.{
  not, ◌||◌, ℕ, ◌+◌, ◌-◌, String, Bool, true, false, ◌&&◌, Option, none, some, List, [], ◌∷◌, ltb,
  nat_eq, if◌then◌else◌, find, put, erase,
}
use code_bridge.Js.Value.{
  Value, Values, int, number, string, array, object, nil, cons, get_field, or_value, truthy, set,
}
use code_bridge.Js.Print.{to_text}
use code_bridge.WebSocket.Redact.{contains}
use code_bridge.Host.{
  Host, Frame, relayed, hello_ack, control_failed, rate_limit_notice, Ran, ended, threw, BridgeMeta,
  conn_of, post, is_ready, same_key, has_type,
}
use code_bridge.Host.Routing.{Loop, finished, aborted, route_to, equals_text}

abbrev pub screenshot_rate_limit_ms : ℕ
screenshot_rate_limit_ms = 2000

-- `{ ...message, key: v }` of a message that is an object
abbrev pub with_field : String → Value → Value → Value
with_field key v (object fs) = object (set key v fs)
with_field key v message = message

-- `if (!message.key) message.key = v`
unfoldable pub fill : String → Value → Value → Value
fill key v message = if truthy (get_field key message) then message else with_field key v message

abbrev pub is_array : Value → Bool
is_array (array vs) = true
is_array v = false

-- `join` throws on what is no array, before the answer.
unfoldable pub acknowledge_hello : Bool → ℕ → BridgeMeta → Host → Ran
acknowledge_hello true id meta h =
    ended (post id (hello_ack (conn_of id h).client_id meta.protocol) h)
acknowledge_hello false id meta h = threw h

unfoldable pub set_bridge_meta : ℕ → BridgeMeta → Host → Host
set_bridge_meta id meta h = record h {
  bridge_capabilities = put nat_eq id meta h.bridge_capabilities;
}

unfoldable pub on_hello : ℕ → Value → Host → Ran
on_hello id message h =
    let meta : BridgeMeta = record {
      capabilities = or_value (get_field "capabilities" message) (array nil);
      route = get_field "route" message;
      url = get_field "url" message;
      protocol = or_value (get_field "protocol" message) (number (int 1));
      platform = get_field "platform" message;
      project_id = get_field "projectId" message;
    } in
    acknowledge_hello (is_array meta.capabilities) id meta (set_bridge_meta id meta h)

unfoldable pub drop_request : Value → Host → Host
drop_request request_id h = record h {
  pending_control = erase same_key request_id h.pending_control;
}

-- The answer to a pending control request is sent to its origin, and ends it, if that is open.
unfoldable pub answer_request : Value → Frame → Option ℕ → Host → Host
answer_request request_id frame none h = h
answer_request request_id frame (some reply_to) h =
    if is_ready reply_to h then drop_request request_id (post reply_to frame h) else h

unfoldable pub on_control_result : Value → Frame → Host → Host
on_control_result request_id frame h =
    answer_request request_id frame (find same_key request_id h.pending_control) h

unfoldable pub add_pending : Value → ℕ → Host → Host
add_pending request_id reply_to h = record h {
  pending_control = put same_key request_id reply_to h.pending_control;
}

-- A request that some consumers were sent is pending; one that nobody got has failed.
unfoldable pub offered : ℕ → Value → Loop → Ran
offered id request_id (aborted h) = threw h
offered id request_id (finished [] h) =
    ended (post id (control_failed request_id "No consumers connected for control") h)
offered id request_id (finished (c ∷ cs) h) = ended (add_pending request_id id h)

unfoldable pub on_bridge_control_request : ℕ → ℕ → Value → Host → Ran
on_bridge_control_request now id message h = offered id (get_field "id" message) (
    route_to now (some (relayed message)) (with_field "level" (string "info") message) id
      h.consumers h)

abbrev some_text : String → Values → Bool
some_text t nil = false
some_text t (cons v vs) = equals_text t v || some_text t vs

-- `capabilities.includes(t)`: `none` where there is no such method.
unfoldable pub lists : String → Value → Option Bool
lists t (array vs) = some (some_text t vs)
lists t (string s) = some (contains s t)
lists t v = none

-- `!bridgeCaps || !bridgeCaps.capabilities.includes('screenshot')`, the other way round
unfoldable pub may_send_screenshots : Option BridgeMeta → Option Bool
may_send_screenshots none = some false
may_send_screenshots (some m) = lists "screenshot" m.capabilities

-- How long a bridge has to wait before its next screenshot, if it has to.
unfoldable pub wait_ms : ℕ → Option ℕ → Option ℕ
wait_ms now none = none
wait_ms now (some last) =
    if not (nat_eq last 0) && ltb now (last + screenshot_rate_limit_ms)
    then some ((last + screenshot_rate_limit_ms) - now)
    else none

-- What is missing is filled in.
unfoldable pub complete_screenshot : ℕ → Value → Value
complete_screenshot now message =
    let m₁ = fill "timestamp" (number (int now)) message in
    let m₂ = fill "level" (string "info") (fill "platform" (string "web") m₁) in
    let place =
      or_value (or_value (get_field "route" m₂) (get_field "url" m₂)) (string "unknown") in
    fill "message" (string ("Screenshot: " <> to_text place)) m₂

unfoldable pub send_to_all : Frame → List ℕ → Host → Host
send_to_all frame [] h = h
send_to_all frame (c ∷ cs) h = send_to_all frame cs (post c frame h)

unfoldable pub set_last_screenshot : ℕ → ℕ → Host → Host
set_last_screenshot id now h = record h {
  bridge_last_screenshot = put nat_eq id now h.bridge_last_screenshot;
}

-- A screenshot that its interested consumers are to get.
unfoldable pub forward_screenshot : ℕ → ℕ → Value → List ℕ → Host → Host
forward_screenshot now id message interested h =
    let h' = set_last_screenshot id now h in
    if truthy (get_field "mime" message) && truthy (get_field "data" message)
    then send_to_all (relayed (complete_screenshot now message)) interested h'
    else post id (rate_limit_notice "invalid_format" none) h'

-- Once the interested consumers are known.
unfoldable pub forward_if_wanted : ℕ → ℕ → Value → Loop → Ran
forward_if_wanted now id message (aborted h) = threw h
forward_if_wanted now id message (finished [] h) =
    ended (post id (rate_limit_notice "no_consumers" none) h)
forward_if_wanted now id message (finished (c ∷ cs) h) =
    ended (forward_screenshot now id message (c ∷ cs) h)

-- A screenshot of a bridge that may send some, which has to wait for a while or not.
unfoldable pub limit_screenshot : ℕ → ℕ → Value → Option ℕ → Host → Ran
limit_screenshot now id message (some ms) h =
    ended (post id (rate_limit_notice "rate_limit" (some ms)) h)
limit_screenshot now id message none h =
    forward_if_wanted now id message (route_to now none message id h.consumers h)

unfoldable pub check_screenshot : ℕ → ℕ → Value → Option Bool → Host → Ran
check_screenshot now id message none h = threw h
check_screenshot now id message (some false) h =
    ended (post id (rate_limit_notice "missing_capability" none) h)
check_screenshot now id message (some true) h =
    limit_screenshot now id message (wait_ms now (find nat_eq id h.bridge_last_screenshot)) h

unfoldable pub on_screenshot : ℕ → ℕ → Value → Host → Ran
on_screenshot now id message h =
    check_screenshot now id message (may_send_screenshots (find nat_eq id h.bridge_capabilities)) h

abbrev pub ran_of : Loop → Ran
ran_of (aborted h) = threw h
ran_of (finished cs h) = ended h

-- Any other event.
unfoldable pub on_event : ℕ → ℕ → Value → Host → Ran
on_event now id message h = ran_of (route_to now (some (relayed message)) message id h.consumers h)

unfoldable pub from_bridge : ℕ → ℕ → Value → Host → Ran
from_bridge now id message h =
    if has_type "hello" message
    then on_hello id message h
    else if has_type "control_result" message
    then ended (on_control_result (get_field "id" message) (relayed message) h)
    else if has_type "control_request" message
    then on_bridge_control_request now id message h
    else if has_type "screenshot" message
    then on_screenshot now id message h
    else on_event now id message h
