-- ===== src/Mcp/Config.antt =====
-- src/mcp/config.ts: where the MCP server finds its host, and what it subscribes to. Reading and
-- parsing the metadata file is left out: its result is an argument, `none` without a file.
pub mod Precedence
pub mod Choices
mod Tests
use code_bridge.Base.{
  ℕ, String, Bool, true, false, ◌||◌, not, Option, none, some, List, [], ◌∷◌, ◌++◌, ◌==◌,
  if◌then◌else◌,
}
use code_bridge.Js.Text.{includes}
use code_bridge.Js.Value.{Number, int}
use code_bridge.Mcp.Mappers.{BridgeMeta}

pub record Subscription : Type 0 where
  pub levels : Option (List String)
  pub capabilities : Option (List String)
  pub llm_filter : Option String

pub record McpOptions : Type 0 where
  pub workspace_path : Option String
  pub host_url : Option String
  pub secret : Option String
  pub client_id : Option String
  pub buffer_size : Option Number
  pub debug : Bool
  pub subscription : Option Subscription

-- What the options and the environment do not say: CODE_BRIDGE_URL, CODE_BRIDGE_SECRET and
-- CODE_BRIDGE_WORKSPACE, the directory and the id of the process.
pub record Surroundings : Type 0 where
  pub env_url : Option String
  pub env_secret : Option String
  pub env_workspace : Option String
  pub cwd : String
  pub default_client_id : String

pub record ResolvedSubscription : Type 0 where
  pub levels : List String
  pub capabilities : List String
  pub llm_filter : String

pub record ResolvedConfig : Type 0 where
  pub meta : BridgeMeta
  pub client_id : String
  pub buffer_size : Number
  pub debug : Bool
  pub subscription : ResolvedSubscription

-- `a || b`: an empty text counts as missing.
unfoldable pub or_else : Option String → String → String
or_else none b = b
or_else (some a) b = if a == "" then b else a

-- `set.add(x)` for each x that is allowed
unfoldable pub add_allowed : List String → List String → List String → List String
add_allowed allowed [] set = set
add_allowed allowed (x ∷ xs) set =
    let set' =
      if includes allowed x then (if includes set x then set else set ++ x ∷ []) else set in
    add_allowed allowed xs set'

-- `set.size ? set : fallback`
abbrev non_empty : List String → List String → List String
non_empty [] fallback = fallback
non_empty (x ∷ xs) fallback = x ∷ xs

abbrev pub allowed_levels : List String
allowed_levels = "errors" ∷ "warn" ∷ "info" ∷ "trace" ∷ []

abbrev pub allowed_caps : List String
allowed_caps =
    "error" ∷ "console" ∷ "pageview" ∷ "navigation" ∷ "screenshot" ∷ "network" ∷ "control" ∷ []

unfoldable pub normalize_levels : List String → List String
normalize_levels levels = non_empty (add_allowed allowed_levels levels []) ("errors" ∷ [])

unfoldable pub normalize_capabilities : List String → List String
normalize_capabilities caps =
    non_empty (add_allowed allowed_caps caps []) ("error" ∷ "console" ∷ [])

abbrev pub default_levels : List String
default_levels = "errors" ∷ "warn" ∷ "info" ∷ []

abbrev pub default_capabilities : List String
default_capabilities =
    "error" ∷ "console" ∷ "pageview" ∷ "navigation" ∷ "network" ∷ "screenshot" ∷ "control" ∷ []

module _ {ℓ} {A : Type ℓ} where
  abbrev pub or_default : Option A → A → A
  or_default none d = d
  or_default (some a) d = a

abbrev pub no_subscription : Subscription
no_subscription = record { levels = none; capabilities = none; llm_filter = none }

unfoldable pub resolve_subscription : Subscription → ResolvedSubscription
resolve_subscription s = record {
  levels = normalize_levels (or_default s.levels default_levels);
  capabilities = normalize_capabilities (or_default s.capabilities default_capabilities);
  llm_filter = or_else s.llm_filter "off";
}

abbrev bind {ℓ κ} : {A : Type ℓ} {B : Type κ} → Option A → (A → Option B) → Option B
bind none f = none
bind (some a) f = f a

unfoldable pub workspace_of : McpOptions → Surroundings → String
workspace_of o s = or_else o.workspace_path (or_else s.env_workspace s.cwd)

-- The metadata of `readMetaFile`, whose workspace is the one that is looked in.
unfoldable pub resolve_meta : McpOptions → Surroundings → Option BridgeMeta → BridgeMeta
resolve_meta o s disk = record {
  url =
      or_else o.host_url
        (or_else s.env_url (or_else (bind disk (λ (m : BridgeMeta). some m.url)) ""));
  secret =
      or_else o.secret
        (or_else s.env_secret (or_else (bind disk (λ (m : BridgeMeta). some m.secret)) ""));
  port = bind disk (λ (m : BridgeMeta). m.port);
  workspace_path = some (workspace_of o s);
  pid = bind disk (λ (m : BridgeMeta). m.pid);
  heartbeat_at = bind disk (λ (m : BridgeMeta). m.heartbeat_at);
  started_at = bind disk (λ (m : BridgeMeta). m.started_at);
}

-- `none` is the error that no url or no secret is found.
unfoldable pub resolve_mcp_config :
    McpOptions → Surroundings → Option BridgeMeta → Option ResolvedConfig
resolve_mcp_config o s disk =
    let meta = resolve_meta o s disk in
    if meta.url == "" || meta.secret == ""
    then none
    else some (record {
      meta = meta;
      client_id = or_else o.client_id s.default_client_id;
      buffer_size = or_default o.buffer_size (int 500);
      debug = o.debug;
      subscription = resolve_subscription (or_default o.subscription no_subscription);
    })
