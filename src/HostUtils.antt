-- ===== src/HostUtils.antt =====
-- src/host-utils.ts: what decides whether an event fits a subscription. `undefined` is `none`.
pub mod Hierarchy
pub mod Capability
mod Tests
use code_bridge.Base.{
  ℕ, suc, String, Bool, true, false, Option, none, some, List, [], ◌∷◌, map, ◌==◌, if◌then◌else◌,
  leb, nat_eq, any, keep, not,
}
use code_bridge.Js.Text.{to_lower_case, includes}

-- A value that is given has a `toString`, so the `catch` is never taken.
unfoldable pub lower : Option String → String
lower none = ""
lower (some s) = to_lower_case s

abbrev pub level_order : List String
level_order = "errors" ∷ "warn" ∷ "info" ∷ "trace" ∷ []

-- `xs.indexOf(s)` plus one, so that -1 is 0
unfoldable pub index_of : List String → String → ℕ
index_of [] s = 0
index_of (x ∷ xs) s =
    if x == s then 1 else (let i = index_of xs s in if nat_eq i 0 then 0 else suc i)

unfoldable pub level_of_lower : String → String
level_of_lower lvl =
    if lvl == "error"
    then "errors"
    else if lvl == "warn"
    then "warn"
    else if lvl == "debug"
    then "trace"
    else "info"

unfoldable pub get_subscription_level_for_log_level : Option String → String
unfolding lower level_of_lower
get_subscription_level_for_log_level log_level = level_of_lower (lower log_level)

abbrev pub default_levels : List String
default_levels = "errors" ∷ []

-- `subscribedLevels?.length ? subscribedLevels : ['errors']`
unfoldable pub effective_levels : Option (List String) → List String
effective_levels none = default_levels
effective_levels (some []) = default_levels
effective_levels (some (l ∷ ls)) = l ∷ ls

unfoldable pub reaches : ℕ → String → Bool
reaches event_index level = leb event_index (index_of level_order (lower (some level)))

unfoldable pub subscription_includes_level : Option (List String) → Option String → Bool
subscription_includes_level subscribed_levels event_log_level =
    let event_index = index_of level_order (get_subscription_level_for_log_level event_log_level) in
    any (reaches event_index) (effective_levels subscribed_levels)

abbrev pub or_empty : Option (List String) → List String
or_empty none = []
or_empty (some xs) = xs

abbrev pub lower_all : List String → List String
lower_all = map (λ s. lower (some s))

unfoldable pub bridge_has_capability : Option (List String) → String → Bool
bridge_has_capability bridge_caps capability =
    let cap = lower (some capability) in
    if cap == "" then false else includes (lower_all (or_empty bridge_caps)) cap

-- `filter(Boolean)` drops the empty strings.
unfoldable pub requested : Option (List String) → List String
requested caps = keep (λ s. not (s == "")) (lower_all (or_empty caps))

unfoldable pub wants : List String → String → Bool
wants [] cap = true
wants (r ∷ rs) cap = includes (r ∷ rs) cap

unfoldable pub consumer_wants_capability : Option (List String) → String → Bool
unfolding wants
consumer_wants_capability consumer_caps capability =
    wants (requested consumer_caps) (lower (some capability))
