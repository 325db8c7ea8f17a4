-- ===== src/Client/Tests.antt =====
-- src/client.ts on concrete options and calls.
use code_bridge.Client.Requests.{Event, writes, receives}
use code_bridge.Host.Lock.{System, Files, absent, try_acquire_lock}
use code_bridge.Host.Exclusion.{running}
use code_bridge.Client.Meta.{read_healthy_meta}
use code_bridge.Client.Meta.Found.{has_value, is_exited, healthy-exited}
use code_bridge.Base.{
  map, suc, arith, get_last?, List, ◌<◌, ◌≡◌, ◌≤◌, ℕ, refl, none, some, true, false, [], ◌∷◌,
  length, inl,
}
use code_bridge.Js.Text.{to_lower_case}
use code_bridge.Js.Value.{undefined, nan, Value, string, array, nil, cons}
use code_bridge.Protocol.{Breadcrumb, BridgeEvent}
use code_bridge.HostUtils.{bridge_has_capability}
use code_bridge.Platform.{Environment, get_env, lookup, is_dev_mode}
use code_bridge.Throttle.{allowed, should_allow}
use code_bridge.Client.{
  Draft, BridgeOptions, Features, Client, start, should_enable, capabilities_of, bypasses,
}
use code_bridge.Client.Handlers.{Argument, text_argument, joined, console, draft}
use code_bridge.Client.Options.{is_on, announced_capabilities}
use code_bridge.Client.Serialize.{
  Node, list, item, plain, text, missing, no_items, fits, map_items, safe_serialize,
  safe_serialize-fits,
}
use code_bridge.Client.Serialize.Whole.{numbers, whole, safe_serialize-whole}
use code_bridge.Client.Breadcrumbs.{console_carries_itself}
use code_bridge.Client.Network.{Network, unpatched, attach, detach}
use code_bridge.Client.Network.Refs.{
  detaches, attaches, Call, perform_all, patch_for, attached, repeated, patch_follows_sinks,
  stale_detaches,
}
use code_bridge.Client.Sending.{spaced_out, event_of, Quiet, send_drafts, send_drafts-spaced_out}
use code_bridge.WebSocket.Delivery.{send_all}

abbrev laptop : Environment
laptop = record {
  process_env = some (("NODE_ENV", "development") ∷ []);
  global_env = none;
  import_meta_env = none;
  is_node = true;
  is_react_native = false;
  has_window = false;
  has_document = false;
  has_web_socket = false;
  bridge_dev = false;
  global_dev = false;
  import_meta_dev = false;
  page = none;
}

abbrev options : BridgeOptions
options = record {
  url = some "ws://localhost:9876";
  secret = none;
  project_id = none;
  enabled = none;
  max_breadcrumbs = some 2;
  throttle_ms = none;
  enable_pageview = none;
  enable_navigation = none;
  enable_network = none;
  enable_screenshot = none;
  enable_control = none;
  has_screenshot_provider = false;
}

abbrev client : Client
client = start laptop none options

enabled_here : should_enable laptop options ≡ true
unfolding should_enable get_env lookup is_dev_mode
enabled_here = refl

abbrev all_but_control : Features
all_but_control = record {
  pageview = true;
  navigation = true;
  network = true;
  screenshot = true;
  control = false;
}

announced_capabilities_example :
    bridge_has_capability (some (capabilities_of all_but_control)) "Network"
    ≡ is_on all_but_control (to_lower_case "Network")
announced_capabilities_example = announced_capabilities all_but_control "Network"

-- `[['deep'], undefined]`
abbrev nested : Node
nested =
    list 0 (item (list 1 (item (plain (text "deep")) no_items)) (item (plain missing) no_items))

-- An array whose one entry is itself.
abbrev looped : Node
looped = list 0 (item (list 0 (item (plain (text "deep")) no_items)) no_items)

cut :
    (safe_serialize 2 [] nested).0
    ≡ array (cons (array (cons (string "[depth limit]") nil)) (cons undefined nil))
unfolding safe_serialize map_items
cut = refl

marked : (safe_serialize 3 [] looped).0 ≡ array (cons (string "[circular]") nil)
unfolding safe_serialize map_items
marked = refl

safe_serialize-fits_example : fits 3 (safe_serialize 3 [] looped).0 ≡ true
safe_serialize-fits_example = safe_serialize-fits 3 [] looped

safe_serialize-whole_example : (safe_serialize 3 [] nested).0 ≡ whole nested
unfolding numbers
safe_serialize-whole_example = safe_serialize-whole 2 nested refl (refl, (refl, tt))

client_empty : length client.breadcrumbs ≤ client.max_breadcrumbs
unfolding start
client_empty = omega arith

client_keeps : 0 < client.max_breadcrumbs
unfolding start
client_keeps = omega arith

abbrev said : List Argument
said = text_argument "disk full" ∷ []

console_carries_itself_example :
    (e : BridgeEvent) × ((console 7 "error" said client).ws
      ≡ code_bridge.WebSocket.send e client.ws)
    × (e.message ≡ joined said)
    × (e.level ≡ "error")
    × (crumbs : List Breadcrumb) × (e.breadcrumbs ≡ some crumbs)
    × (get_last? crumbs ≡ some (record { timestamp = 7; level = "error"; message = joined said }))
console_carries_itself_example =
    console_carries_itself 7 "error" said client client_empty client_keeps (inl refl)

abbrev drafts : List (ℕ × Draft)
drafts =
    (500, draft "console" "log" [])
    ∷ (550, draft "console" "log" [])
    ∷ (700, draft "pageview" "info" [])
    ∷ []

drafts-Quiet : Quiet drafts
unfolding bypasses
drafts-Quiet = (refl, (refl, (refl, tt)))

drafts-spaced_out :
    spaced_out client.throttler.delay_ms client.throttler.last_call drafts
    ≡ (500, draft "console" "log" []) ∷ (700, draft "pageview" "info" []) ∷ []
unfolding start code_bridge.Throttle.new
drafts-spaced_out = refl

send_drafts-spaced_out_example :
    (send_drafts drafts client).ws
    ≡ send_all
        (map
          (event_of "node" [] none)
          (spaced_out client.throttler.delay_ms client.throttler.last_call drafts))
        client.ws
unfolding start code_bridge.Platform.detect_platform code_bridge.WebSocket.new
send_drafts-spaced_out_example = send_drafts-spaced_out drafts client drafts-Quiet

abbrev calls : List Call
calls = attaches ∷ attaches ∷ detaches 0 ∷ []

patch_follows_sinks_example : (perform_all calls unpatched).patch ≡ patch_for (attached 0 calls [])
patch_follows_sinks_example = patch_follows_sinks calls (refl, tt)

abbrev one_left : Network
one_left = perform_all calls unpatched

one_left_patch : one_left.patch ≡ some (record { count = 1; sinks = 1 ∷ [] })
unfolding attach detach
one_left_patch = refl

stale_detaches_example : (perform_all (repeated (suc 0) (detaches 0)) one_left).patch ≡ none
stale_detaches_example =
    stale_detaches 0 0 one_left (record { count = 1; sinks = 1 ∷ [] }) one_left_patch refl refl

-- A request in two writes, whose response comes in two chunks.
abbrev sending : List Event
sending = writes 3 ∷ writes 4 ∷ []

abbrev receiving : List Event
receiving = receives 5 ∷ receives 6 ∷ []

abbrev home : Value
home = string "http://a/"

abbrev quiet_system : System
quiet_system = record { is_alive = λ v. true; date_ms = λ v. nan; iso = λ t. "" }

abbrev no_files : Files
no_files = record { lock = absent; meta = absent }

healthy-exited_example :
    has_value (
      read_healthy_meta quiet_system (record {
        now = 5;
        mtime = 1;
        file = (running quiet_system 1 3 7 "w" 9_876 "k" no_files).meta;
      }))
    ≡ is_exited
        (try_acquire_lock quiet_system 5 8 "w" (running quiet_system 1 3 7 "w" 9_876 "k" no_files))
healthy-exited_example =
    healthy-exited quiet_system 1 3 5 1 7 8 9_876 "w" "w" "k" no_files (omega arith) refl
