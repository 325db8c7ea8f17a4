-- ===== src/HostUtils/Tests.antt =====
-- src/host-utils.ts on concrete inputs.
use code_bridge.Base.{String, false, ◌≡◌, refl, some, List, [], ◌∷◌}
use code_bridge.Js.Text.{to_lower_case}
use code_bridge.HostUtils.{
  effective_levels, subscription_includes_level, index_of, get_subscription_level_for_log_level,
  reaches,
}

abbrev warn_and_info : List String
warn_and_info = "Warn" ∷ "INFO" ∷ []

debug_is_not_included : subscription_includes_level (some warn_and_info) (some "debug") ≡ false
unfolding subscription_includes_level get_subscription_level_for_log_level index_of reaches
    effective_levels to_lower_case
debug_is_not_included = refl
