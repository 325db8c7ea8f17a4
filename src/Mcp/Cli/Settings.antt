-- ===== src/Mcp/Cli/Settings.antt =====
-- Settings written as arguments, and what parsing makes of them.
use code_bridge.Base.{String, true, some, List, [], ◌∷◌, ◌++◌, ◌≡◌, refl, ◌∙◌}
use code_bridge.Js.Value.{Number}
use code_bridge.Mcp.Config.{McpOptions}
use code_bridge.Mcp.Cli.{
  options, split_commas, with_subscription, set_value, takes_value, parse_from, parse_args,
  no_options,
}

pub data Setting : Type 0 where
  workspace url secret client_id levels capabilities llm_filter buffer_size : String → Setting
  debug : Setting

abbrev pub written : Setting → List String
written (workspace v) = "--workspace" ∷ v ∷ []
written (url v) = "--url" ∷ v ∷ []
written (secret v) = "--secret" ∷ v ∷ []
written (client_id v) = "--client-id" ∷ v ∷ []
written (levels v) = "--levels" ∷ v ∷ []
written (capabilities v) = "--capabilities" ∷ v ∷ []
written (llm_filter v) = "--llm-filter" ∷ v ∷ []
written (buffer_size v) = "--buffer-size" ∷ v ∷ []
written debug = "--debug" ∷ []

abbrev pub all_written : List Setting → List String
all_written [] = []
all_written (s ∷ ss) = written s ++ all_written ss

module _ (to_number : String → Number) where
  abbrev pub applied : Setting → McpOptions → McpOptions
  applied (workspace v) o = record o { workspace_path = some v }
  applied (url v) o = record o { host_url = some v }
  applied (secret v) o = record o { secret = some v }
  applied (client_id v) o = record o { client_id = some v }
  applied (levels v) o = with_subscription (λ s. record s { levels = some (split_commas v) }) o
  applied (capabilities v) o =
      with_subscription (λ s. record s { capabilities = some (split_commas v) }) o
  applied (llm_filter v) o = with_subscription (λ s. record s { llm_filter = some v }) o
  applied (buffer_size v) o = record o { buffer_size = some (to_number v) }
  applied debug o = record o { debug = true }

  abbrev pub all_applied : List Setting → McpOptions → McpOptions
  all_applied [] o = o
  all_applied (s ∷ ss) o = all_applied ss (applied s o)

  parse_from-written :
      (s : Setting) (rest : List String) (o : McpOptions)
      → parse_from to_number o (written s ++ rest) ≡ parse_from to_number (applied s o) rest
  unfolding parse_from set_value takes_value
  parse_from-written (workspace v) rest o = refl
  parse_from-written (url v) rest o = refl
  parse_from-written (secret v) rest o = refl
  parse_from-written (client_id v) rest o = refl
  parse_from-written (levels v) rest o = refl
  parse_from-written (capabilities v) rest o = refl
  parse_from-written (llm_filter v) rest o = refl
  parse_from-written (buffer_size v) rest o = refl
  parse_from-written debug [] o = refl
  parse_from-written debug (r ∷ rest) o = refl

  parse_from-all_written :
      (ss : List Setting) (o : McpOptions)
      → parse_from to_number o (all_written ss) ≡ options (all_applied ss o)
  unfolding parse_from
  parse_from-all_written [] o = refl
  parse_from-all_written (s ∷ ss) o =
      parse_from-written s (all_written ss) o ∙ parse_from-all_written ss (applied s o)

  -- Parsing the arguments that settings are written as gives the options that the settings make,
  -- applied in their order, so that the last setting of a field wins. The texts of the settings
  -- are arbitrary, those that look like flags included.
  pub parse_args-written :
      (ss : List Setting)
      → parse_args to_number (all_written ss) ≡ options (all_applied ss no_options)
  unfolding parse_args
  parse_args-written ss = parse_from-all_written ss no_options
