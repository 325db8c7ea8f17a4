-- ===== src/Mcp/Cli/Tests.antt =====
-- src/mcp/cli.ts on a few arguments.
use code_bridge.Base.{String, [], ◌∷◌, ◌≡◌, refl, List}
use code_bridge.Js.Value.{Number, nan}
use code_bridge.Mcp.Cli.{
  options, crashed, parse_args, parse_from, set_value, takes_value, split_commas, no_options,
}
use code_bridge.Mcp.Cli.Settings.{
  Setting, url, levels, debug, all_written, all_applied, parse_args-written,
}

abbrev to_nan : String → Number
to_nan text = nan

abbrev settings : List Setting
settings = url "ws://a" ∷ levels "warn,info" ∷ debug ∷ url "--debug" ∷ []

dangling_levels : parse_args to_nan ("--debug" ∷ "--levels" ∷ []) ≡ crashed
unfolding parse_args parse_from set_value takes_value
dangling_levels = refl

two_levels : split_commas "warn,info" ≡ "warn" ∷ "info" ∷ []
unfolding split_commas
two_levels = refl

parse_args-written_example :
    parse_args to_nan (all_written settings) ≡ options (all_applied to_nan settings no_options)
parse_args-written_example = parse_args-written to_nan settings
