-- ===== src/Host/Tests.antt =====
-- Runs of the definitions on concrete inputs.
use Prim.Native.String.{[] as nil_text, ◌∷◌ as ◌∷ₛ◌}
use code_bridge.Base.{
  keep, ℕ, zero, suc, ◌≡◌, ◌≢◌, refl, String, true, false, Option, none, some, List, [], ◌∷◌,
  nat_eq, arith, All, if◌then◌else◌,
}
use code_bridge.Js.Value.{
  get, or_value, truthy, Value, Fields, int, nan, undefined, number, string, array, object, nil,
  end, field, get_field,
}
use code_bridge.Socket.{opened}
use code_bridge.Host.{
  relayed, is_ready, set_conn, close_conn, Host, new, Conn, BridgeMeta, Subscription, Role, bridge,
  consumer, Frame, rate_limit_notice, ended, conn_of, post,
}
use code_bridge.Host.Ports.{FirstFree, find_available_port, find_available_port-FirstFree}
use code_bridge.Host.Lock.{
  System, Files, acquired, exited, absent, try_acquire_lock, release_lock, write_lock,
  choose_secret,
}
use code_bridge.Host.Exclusion.{running, running-exited, restart-secret, stale-acquired}
use code_bridge.Host.Levels.{
  subscription_includes_level, lowered_or, lower_values, subscription_level, bridge_has_capability,
  consumer_wants_capability, text_array,
}
use code_bridge.Host.Routing.{
  offer, should_route_to_consumer, route_by, passes, count_event, route_to, check_route,
  filter_event_for_consumer,
}
use code_bridge.Host.Agreement.{agreed, check_route-agreed}
use code_bridge.Host.Runs.{if_alive, step, Event, connects, receives, closes, run}
use code_bridge.Host.Queue.{forward_each, poll-queue}
use code_bridge.Host.Http.{on_poll, commands}
use code_bridge.Js.Text.{to_lower_case, includes}
use code_bridge.WebSocket.Redact.{contains}
use code_bridge.HostUtils.{index_of}
use code_bridge.Host.Messages.{
  on_connection, on_message, handle, authenticate, accept, greet, enrol, on_close, retire,
  drop_pending,
}
use code_bridge.Js.Print.{number_text, lower_value, to_text}
use code_bridge.Host.Bridges.{
  from_bridge, on_event, may_send_screenshots, lists, wait_ms, on_screenshot,
}
use code_bridge.Base.{find}
use code_bridge.Host.Limits.{after_screenshot, screenshot-limited}
use code_bridge.Host.Overload.{count_events, filter-overfull}
use code_bridge.Host.Delivery.{verdict, gets, to_each, event-delivered}
use code_bridge.Host.Unsent.{left}
use code_bridge.Host.Secrecy.{sent-secret}
use code_bridge.Host.Leaks.{Forgotten, run-Forgotten}

abbrev message : String → Fields → Value
message type fs = object (field "type" (string type) fs)

abbrev text : String → String → Fields → Fields
text key v fs = field key (string v) fs

abbrev auth : String → String → Value
auth secret role = message "auth" (text "secret" secret (text "role" role end))

-- The first port from 9876 on that is free is 9878.
abbrev busy : ℕ → Option ℕ
busy p = if nat_eq p 9_876 then none else if nat_eq p 9_877 then none else some p

find_available_port-FirstFree_example : FirstFree busy 9_876 (find_available_port busy 9_876)
find_available_port-FirstFree_example = find_available_port-FirstFree busy 9_876

-- A time is written with as many letters as it counts.
marks : ℕ → String
marks zero = nil_text
marks (suc n) = "x" ∷ₛ marks n

count_marks : String → ℕ
count_marks nil_text = 0
count_marks (c ∷ₛ s) = suc (count_marks s)

abbrev sys : System
sys = record {
  is_alive = λ v. true;
  date_ms = λ v. elim v [ string s ↦ int (count_marks s) | _ ↦ nan ];
  iso = marks;
}

abbrev empty_dir : Files
empty_dir = record { lock = absent; meta = absent }

running-exited_example :
    try_acquire_lock sys 4 8 "w" (running sys 1 3 7 "w" 9_876 "k" empty_dir)
    ≡ exited (running sys 1 3 7 "w" 9_876 "k" empty_dir)
unfolding marks count_marks
running-exited_example =
    running-exited sys 1 3 4 7 8 9_876 "w" "w" "k" empty_dir refl refl (omega arith) (omega arith)

restart-secret_example :
    choose_secret none none (release_lock (running sys 1 3 7 "w" 9_876 "k" empty_dir)).meta "z"
    ≡ "k"
restart-secret_example = restart-secret sys 1 3 7 9_876 "w" "k" "z" empty_dir refl

stale-acquired_example :
    (taken : Files) × (try_acquire_lock sys 15_004 8 "w" (running sys 1 3 7 "w" 9_876 "k" empty_dir)
      ≡ acquired taken)
    × (try_acquire_lock sys 15_004 9 "w"
          (release_lock (running sys 15_004 15_004 8 "w" 9_876 "k" taken))
        ≡ acquired (write_lock sys 15_004 9 "w" (running sys 15_004 15_004 8 "w" 9_876 "k" taken)))
unfolding marks count_marks
stale-acquired_example =
    stale-acquired sys 1 3 15_004 7 8 9 9_876 "w" "k" empty_dir refl refl (omega arith)

abbrev pageview : Value
pageview = message "pageview" (text "level" "info" end)

check_route-agreed_example :
    check_route
      (text_array ("info" ∷ []))
      (text_array ("pageview" ∷ []))
      pageview
      (text_array ("Pageview" ∷ []))
    ≡ some (agreed ("info" ∷ []) ("pageview" ∷ []) "info" "pageview" ("Pageview" ∷ []))
unfolding get_field get
check_route-agreed_example =
    check_route-agreed "info" [] ("pageview" ∷ []) ("Pageview" ∷ []) "info" "pageview" pageview refl
      refl refl

-- An open socket of a role.
abbrev socket : Role → String → Conn
socket role name = record {
  ready = opened;
  is_authenticated = true;
  role = some role;
  client_id = string name;
  auth_timer = false;
}

abbrev meta : BridgeMeta
meta = record {
  capabilities = text_array ("control" ∷ "screenshot" ∷ []);
  route = undefined;
  url = undefined;
  protocol = number (int 2);
  platform = undefined;
  project_id = undefined;
}

abbrev everything : Subscription
everything = record {
  levels = text_array ("trace" ∷ []);
  capabilities = array nil;
  llm_filter = "off";
}

-- The bridge 0, the consumer 1 and the HTTP session 2.
abbrev hosted : Host
hosted = record {
  secret = "k";
  next = 3;
  conns = (0, socket bridge "b") ∷ (1, socket consumer "c") ∷ [];
  sessions = (2, record { session_id = "s"; queue = pageview ∷ []; last_seen = 1 }) ∷ [];
  http_bridge_sessions = ("s", 2) ∷ [];
  bridges = 0 ∷ 2 ∷ [];
  consumers = 1 ∷ [];
  bridge_capabilities = (0, meta) ∷ (2, meta) ∷ [];
  consumer_subscriptions = (1, everything) ∷ [];
  pending_control = [];
  bridge_last_screenshot = [];
  window_start = 1;
  window_count = 0;
  sent = [];
}

-- The consumer 1 is open, and 5 is not.
abbrev attended : Host
attended = record hosted { consumers = 1 ∷ 5 ∷ [] }

event-delivered_example :
    (left (on_event 9 0 pageview attended)).sent
    ≡ to_each (relayed pageview) (keep (gets 9 0 pageview attended) attended.consumers)
unfolding route_by filter_event_for_consumer lower_value or_value to_lower_case check_route
    subscription_includes_level lowered_or lower_values index_of subscription_level get_field
    bridge_has_capability consumer_wants_capability verdict includes get truthy contains to_text
event-delivered_example =
    event-delivered 9 0 pageview attended ((refl, refl, refl), ((refl, refl, refl), tt))

abbrev request : Value
request = message "control_request" (text "id" "r" end)

-- The bridge 0 is the only one that is for control, and the request is pending.
abbrev attached : Host
attached = record hosted { bridges = 0 ∷ [] }

abbrev asking : Host
asking = record attached { pending_control = (string "r", 1) ∷ [] }

poll-queue_example :
    ((on_poll 2 (forward_each (request ∷ []) 2 hosted)).1 ≡ commands (pageview ∷ request ∷ []))
    × ((on_poll 2 (on_poll 2 (forward_each (request ∷ []) 2 hosted)).0).1 ≡ commands [])
poll-queue_example = poll-queue (request ∷ []) 2 _ hosted refl

abbrev screenshot : Value
screenshot = message "screenshot" (text "mime" "image/png" (text "data" "iVBORw==" end))

-- The bridge 0 has sent a screenshot at 1000.
abbrev waiting : Host
waiting = record hosted { bridge_last_screenshot = (0, 1_000) ∷ [] }

screenshot-limited_example :
    (find nat_eq 0 (after_screenshot 1_000 0 screenshot hosted).bridge_last_screenshot ≡ some 1_000)
    × (on_screenshot 1_500 0 screenshot waiting
        ≡ ended (post 0 (rate_limit_notice "rate_limit" (some 1_500)) waiting))
unfolding may_send_screenshots lists wait_ms route_to offer is_ready should_route_to_consumer
    route_by filter_event_for_consumer passes count_event lower_value or_value to_lower_case
    check_route subscription_includes_level lowered_or lower_values index_of subscription_level
    get_field bridge_has_capability consumer_wants_capability conn_of post number_text to_text
    includes get truthy contains
screenshot-limited_example =
    screenshot-limited 1_000 1_500 0 1 screenshot screenshot [] hosted _ waiting (omega arith)
      (omega arith) refl refl refl refl refl

repeat : ℕ → List ℕ
repeat zero = []
repeat (suc n) = 2 ∷ repeat n

abbrev careful : Subscription
careful = record {
  levels = text_array ("trace" ∷ []);
  capabilities = array nil;
  llm_filter = "minimal";
}

filter-overfull_example :
    (filter_event_for_consumer 3 pageview careful (count_events (repeat 500) hosted)).0 ≡ false
unfolding repeat get_field get or_value truthy lower_value to_text to_lower_case
filter-overfull_example =
    filter-overfull (repeat 500) 3 pageview careful hosted refl (omega arith) (omega arith) refl

-- The bridge 0 with the secret, and a socket 1 without it.
abbrev visits : List (ℕ × Event)
visits =
    (1, connects)
    ∷ (1, connects)
    ∷ (2, receives 0 (some (auth "k" "bridge")))
    ∷ (3, receives 1 (some (auth "z" "consumer")))
    ∷ (4, receives 0 (some pageview))
    ∷ (5, closes 0)
    ∷ []

sent-secret_example : All (λ (p : ℕ × Frame). p.0 ≢ 1) (run visits (new 1 "k")).sent
unfolding get_field get
sent-secret_example = sent-secret 1 "k" 1 visits refl

run-Forgotten_example : Forgotten 0 (run visits (new 1 "k"))
unfolding run step if_alive on_connection new on_message handle authenticate accept greet enrol
    close_conn from_bridge on_event on_close retire set_conn drop_pending route_to offer is_ready
    should_route_to_consumer route_by filter_event_for_consumer passes count_event lower_value
    or_value to_lower_case check_route subscription_includes_level lowered_or lower_values index_of
    subscription_level get_field bridge_has_capability consumer_wants_capability conn_of post
    number_text to_text includes get truthy contains
run-Forgotten_example = run-Forgotten 0 1 "k" visits refl refl
