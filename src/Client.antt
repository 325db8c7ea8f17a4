-- ===== src/Client.antt =====
-- src/client.ts: what startBridge decides, and what its handlers send. A handler of the runtime is
-- a function of what it is called with, `Date.now()` included. The limits given by the options are
-- natural numbers here.
pub mod Serialize
pub mod Options
pub mod Breadcrumbs
pub mod Handlers
pub mod Sending
pub mod Network
pub mod Meta
pub mod Requests
mod Tests
use code_bridge.Base.{
  ℕ, suc, String, Bool, true, false, not, ◌&&◌, ◌||◌, Option, none, some, List, [], ◌∷◌, ◌++◌, ltb,
  length, ◌==◌, if◌then◌else◌,
}
use code_bridge.Js.Value.{Values}
use code_bridge.Protocol.{Text, utf16, BridgeEvent, Breadcrumb, NavigationInfo, NetworkInfo}
use code_bridge.Platform.{
  Environment, Platform, web, get_env, is_text, is_dev_mode, detect_platform, platform_name,
}
use code_bridge.Throttle.{Throttler, should_allow}
use code_bridge.WebSocket.{Page, Bridge, shift}

pub record BridgeOptions : Type 0 where
  pub url : Option String
  pub secret : Option String
  pub project_id : Option String
  pub enabled : Option Bool
  pub max_breadcrumbs : Option ℕ
  pub throttle_ms : Option ℕ
  pub enable_pageview : Option Bool
  pub enable_navigation : Option Bool
  pub enable_network : Option Bool
  pub enable_screenshot : Option Bool
  pub enable_control : Option Bool
  pub has_screenshot_provider : Bool

pub record HostMeta : Type 0 where
  pub url : String
  pub secret : String

abbrev pub is_given {ℓ} : {A : Type ℓ} → Option A → Bool
is_given none = false
is_given (some a) = true

-- `value ?? default`
abbrev pub with_default {ℓ} : {A : Type ℓ} → Option A → A → A
with_default none d = d
with_default (some a) d = a

unfoldable pub should_enable : Environment → BridgeOptions → Bool
should_enable env options =
    if is_text "1" (get_env "CODE_BRIDGE" env)
    then true
    else with_default options.enabled
        (is_dev_mode env && (is_given options.url || is_given options.secret))

pub record Features : Type 0 where
  pub pageview : Bool
  pub navigation : Bool
  pub network : Bool
  pub screenshot : Bool
  pub control : Bool

unfoldable pub features : BridgeOptions → Features
features options = record {
  pageview = with_default options.enable_pageview false;
  navigation = with_default options.enable_navigation true;
  network = with_default options.enable_network true;
  screenshot = with_default options.enable_screenshot options.has_screenshot_provider;
  control = with_default options.enable_control false;
}

abbrev pushed_if : Bool → String → List String → List String
pushed_if b c cs = if b then cs ++ c ∷ [] else cs

unfoldable pub capabilities_of : Features → List String
capabilities_of f = pushed_if f.control "control" (
    pushed_if f.network "network" (
      pushed_if f.screenshot "screenshot" (
        pushed_if f.navigation "navigation"
          (pushed_if f.pageview "pageview" ("error" ∷ "console" ∷ [])))))

-- The state of an enabled connection.
pub record Client : Type 0 where
  pub platform : Platform
  pub page : Option Page
  pub features : Features
  pub max_breadcrumbs : ℕ
  pub breadcrumbs : List Breadcrumb
  pub throttler : Throttler
  pub ws : Bridge
  -- `lastUrl` of the navigation tracking
  pub last_url : String

abbrev pub optional_field {ℓ κ} : {A : Type ℓ} {B : Type κ} → (A → B) → Option A → Option B
optional_field f none = none
optional_field f (some a) = some (f a)

-- `a ?? b` of two values that may be missing
abbrev pub first_given {ℓ} : {A : Type ℓ} → Option A → Option A → Option A
first_given none b = b
first_given (some a) b = some a

-- What startBridge makes once it is enabled; the socket is then asked to connect.
unfoldable pub start : Environment → Option HostMeta → BridgeOptions → Client
start env host_meta options =
    let platform = detect_platform env in
    let enabled = features options in
    record {
      platform = platform;
      page = env.page;
      features = enabled;
      max_breadcrumbs = with_default options.max_breadcrumbs 50;
      breadcrumbs = [];
      throttler = code_bridge.Throttle.new (with_default options.throttle_ms 100);
      ws =
          code_bridge.WebSocket.new
            (with_default
              (first_given options.secret (optional_field (λ (m : HostMeta). m.secret) host_meta))
              "dev-secret")
            (capabilities_of enabled) (platform_name platform) options.project_id;
      last_url = "";
    }

unfoldable pub add_breadcrumb : ℕ → String → Text → Client → Client
add_breadcrumb now level message c =
    let breadcrumbs =
      c.breadcrumbs ++ record { timestamp = now; level = level; message = message } ∷ [] in
    record c {
      breadcrumbs =
          if ltb c.max_breadcrumbs (length breadcrumbs) then shift breadcrumbs else breadcrumbs;
    }

-- `Partial<BridgeEvent>`, of the fields that sendEvent reads.
pub record Draft : Type 0 where
  pub type : Option String
  pub level : Option String
  pub message : Option Text
  pub stack : Option String
  pub url : Option String
  pub route : Option String
  pub mime : Option String
  pub body : Option String
  pub args : Option Values
  pub navigation : Option NavigationInfo
  pub network : Option NetworkInfo

unfoldable pub full_event : ℕ → Draft → Client → BridgeEvent
full_event now d c = record {
  type = with_default d.type "log";
  level = with_default d.level "info";
  message = with_default d.message [];
  stack = d.stack;
  timestamp = now;
  platform = platform_name c.platform;
  project_id = c.ws.project_id;
  breadcrumbs = some c.breadcrumbs;
  url = d.url;
  route = d.route;
  mime = d.mime;
  body = d.body;
  args = d.args;
  navigation = d.navigation;
  network = d.network;
}

unfoldable pub bypasses : Draft → Bool → Bool
bypasses d bypass_throttle =
    bypass_throttle
    || is_text "error" d.type
    || is_text "navigation" d.type
    || is_text "network" d.type

unfoldable pub send_event : ℕ → Draft → Bool → Client → Client
send_event now d bypass_throttle c =
    let (allowed, throttler) = should_allow now c.throttler in
    if bypasses d bypass_throttle
    then record c { ws = code_bridge.WebSocket.send (full_event now d c) c.ws }
    else if allowed
    then record c {
      throttler = throttler;
      ws = code_bridge.WebSocket.send (full_event now d c) c.ws;
    }
    else c
