-- ===== src/Platform.antt =====
-- src/platform.ts: the environment that the client runs in, as a record of what can be observed.
-- A missing or non-object source of environment values is `none`.
use code_bridge.WebSocket.{Page}
use code_bridge.Base.{
  String, Bool, false, not, ◌&&◌, ◌||◌, Option, none, some, List, [], ◌∷◌, ◌==◌, if◌then◌else◌,
}

abbrev pub Vars : Type 0
Vars = List (String × String)

pub record Environment : Type 0 where
  pub process_env : Option Vars
  pub global_env : Option Vars
  pub import_meta_env : Option Vars
  -- `process.versions.node` is there
  pub is_node : Bool
  -- `navigator.product` is `ReactNative`
  pub is_react_native : Bool
  pub has_window : Bool
  pub has_document : Bool
  -- `globalThis.WebSocket` is a function
  pub has_web_socket : Bool
  -- `__CODE_BRIDGE_DEV__` is true, `__DEV__` is truthy, `import.meta.env.DEV` is true
  pub bridge_dev : Bool
  pub global_dev : Bool
  pub import_meta_dev : Bool
  pub page : Option Page

pub data Platform : Type 0 where
  web node react_native worker roblox unknown : Platform

unfoldable pub lookup : String → Vars → Option String
lookup key [] = none
lookup key ((k, v) ∷ vars) = if k == key then some v else lookup key vars

abbrev lookup_in : String → Option Vars → Option String
lookup_in key none = none
lookup_in key (some vars) = lookup key vars

-- `if (env && env[key] !== undefined) return env[key]`, else what follows
abbrev or_next : Option String → Option String → Option String
or_next (some v) next = some v
or_next none next = next

unfoldable pub get_env : String → Environment → Option String
get_env key env =
    or_next (lookup_in key env.process_env)
      (or_next (lookup_in key env.global_env) (lookup_in key env.import_meta_env))

unfoldable pub detect_platform : Environment → Platform
detect_platform env =
    if env.is_react_native
    then react_native
    else if env.has_window && env.has_document
    then web
    else if env.has_web_socket && not env.has_window && not env.has_document && not env.is_node
    then worker
    else if env.is_node
    then node
    else unknown

-- `value === text`
abbrev pub is_text : String → Option String → Bool
is_text t none = false
is_text t (some s) = s == t

unfoldable pub is_dev_mode : Environment → Bool
is_dev_mode env =
    is_text "development" (get_env "NODE_ENV" env)
    || env.bridge_dev
    || env.global_dev
    || env.import_meta_dev

abbrev pub platform_name : Platform → String
platform_name web = "web"
platform_name node = "node"
platform_name react_native = "react-native"
platform_name worker = "worker"
platform_name roblox = "roblox"
platform_name unknown = "unknown"
