-- ===== src/Mcp/Config/Tests.antt =====
-- src/mcp/config.ts on a few options.
use code_bridge.Base.{none, some, false, ◌≡◌, ◌⊎◌}
use code_bridge.Mcp.Config.{McpOptions, Surroundings, ResolvedConfig, resolve_mcp_config}
use code_bridge.Mcp.Config.Precedence.{first_text, urls, secrets, resolve_mcp_config-first}

abbrev chosen_url : McpOptions
chosen_url = record {
  workspace_path = none;
  host_url = some "";
  secret = some "s1";
  client_id = none;
  buffer_size = none;
  debug = false;
  subscription = none;
}

abbrev shell : Surroundings
shell = record {
  env_url = some "ws://env";
  env_secret = some "s2";
  env_workspace = none;
  cwd = "/work";
  default_client_id = "mcp-1";
}

resolve_mcp_config-first_example :
    (resolve_mcp_config chosen_url shell none ≡ none)
      × ((first_text (urls chosen_url shell none) ≡ none)
          ⊎ (first_text (secrets chosen_url shell none) ≡ none))
    ⊎ (c : ResolvedConfig) × (resolve_mcp_config chosen_url shell none ≡ some c)
      × (first_text (urls chosen_url shell none) ≡ some c.meta.url)
      × (first_text (secrets chosen_url shell none) ≡ some c.meta.secret)
resolve_mcp_config-first_example = resolve_mcp_config-first chosen_url shell none
