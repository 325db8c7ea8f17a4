-- ===== src/Mcp/Cli.antt =====
-- src/mcp/cli.ts: parseArgs. `Number(text)` is a parameter, `to_number`.
pub mod Settings
mod Tests
use Prim.Native.Char.{Char, code}
use code_bridge.Base.{
  String, Bool, true, false, ◌||◌, Option, none, some, List, [], ◌∷◌, ◌==◌, nat_eq, if◌then◌else◌,
}
use code_bridge.Js.Value.{Number, nan}
use code_bridge.Mcp.Config.{McpOptions, Subscription, no_subscription, or_default}

-- How parsing ends: options, the help text and exit, or the TypeError of `split` on undefined.
pub data Parsed : Type 0 where
  options : McpOptions → Parsed
  help : Parsed
  crashed : Parsed

abbrev prepend : Char → List String → List String
prepend c [] = String.◌∷◌ c String.[] ∷ []
prepend c (w ∷ ws) = String.◌∷◌ c w ∷ ws

-- `text.split(',')`
unfoldable pub split_commas : String → List String
split_commas String.[] = String.[] ∷ []
split_commas (String.◌∷◌ c s) =
    if nat_eq (code c) 44 then String.[] ∷ split_commas s else prepend c (split_commas s)

-- The flags that take the next argument with them.
unfoldable pub takes_value : String → Bool
takes_value arg =
    arg == "--workspace"
    || arg == "-w"
    || arg == "--url"
    || arg == "--secret"
    || arg == "--client-id"
    || arg == "--levels"
    || arg == "--capabilities"
    || arg == "--llm-filter"
    || arg == "--buffer-size"

-- `opts.subscription = opts.subscription || {}`
abbrev pub with_subscription : (Subscription → Subscription) → McpOptions → McpOptions
with_subscription f o = record o {
  subscription = some (f (or_default o.subscription no_subscription));
}

-- `value.split(',')`, which throws where there is no value
abbrev split_value : (List String → McpOptions) → Option String → Option McpOptions
split_value f none = none
split_value f (some text) = some (f (split_commas text))

abbrev pub no_options : McpOptions
no_options = record {
  workspace_path = none;
  host_url = none;
  secret = none;
  client_id = none;
  buffer_size = none;
  debug = false;
  subscription = none;
}

module _ (to_number : String → Number) where
  abbrev number_value : Option String → Number
  number_value none = nan
  number_value (some text) = to_number text

  -- The branches of the flags with a value, which is undefined at the end of the arguments.
  unfoldable pub set_value : String → Option String → McpOptions → Option McpOptions
  set_value arg value o =
      if arg == "--workspace" || arg == "-w"
      then some (record o { workspace_path = value })
      else if arg == "--url"
      then some (record o { host_url = value })
      else if arg == "--secret"
      then some (record o { secret = value })
      else if arg == "--client-id"
      then some (record o { client_id = value })
      else if arg == "--levels"
      then split_value (λ ls. with_subscription (λ s. record s { levels = some ls }) o) value
      else if arg == "--capabilities"
      then split_value (λ cs. with_subscription (λ s. record s { capabilities = some cs }) o) value
      else if arg == "--llm-filter"
      then some (with_subscription (λ s. record s { llm_filter = value }) o)
      else if arg == "--buffer-size"
      then some (record o { buffer_size = some (number_value value) })
      else some o

  -- The loop, from the arguments that are left.
  unfoldable pub parse_from : McpOptions → List String → Parsed
  parse_from o [] = options o
  parse_from o (arg ∷ []) =
      if takes_value arg
      then elim (set_value arg none o) [ none ↦ crashed | some o' ↦ options o' ]
      else if arg == "--debug"
      then options (record o { debug = true })
      else if arg == "--help" || arg == "-h"
      then help
      else options o
  parse_from o (arg ∷ value ∷ rest) =
      if takes_value arg
      then elim (set_value arg (some value) o) [ none ↦ crashed | some o' ↦ parse_from o' rest ]
      else if arg == "--debug"
      then parse_from (record o { debug = true }) (value ∷ rest)
      else if arg == "--help" || arg == "-h"
      then help
      else parse_from o (value ∷ rest)

  unfoldable pub parse_args : List String → Parsed
  parse_args argv = parse_from no_options argv
