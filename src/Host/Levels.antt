-- ===== src/Host/Levels.antt =====
-- The host's copies of the tests of src/host-utils.ts, on what a message holds. `none` is the
-- TypeError of `map` on what is no array.
use code_bridge.Base.{
  ℕ, String, Bool, true, false, not, Option, none, some, List, [], ◌∷◌, ◌==◌, leb, any, keep,
  if◌then◌else◌,
}
use code_bridge.Js.Text.{includes}
use code_bridge.Js.Value.{strings, Value, Values, undefined, string, array, nil, cons, truthy}
use code_bridge.Js.Print.{lower_value}
use code_bridge.HostUtils.{index_of}

abbrev pub text_array : List String → Value
text_array ss = array (strings ss)

-- `xs.map(lower)`
unfoldable pub lower_values : Values → List String
lower_values nil = []
lower_values (cons v vs) = lower_value v ∷ lower_values vs

-- The array is the value, or the default where the value is falsy.
unfoldable pub lowered_or : Values → Value → Option (List String)
lowered_or default (array vs) = some (lower_values vs)
lowered_or default v = if truthy v then none else some (lower_values default)

-- `logLevel = 'info'`
abbrev pub or_info : Value → Value
or_info undefined = string "info"
or_info v = v

unfoldable pub subscription_level : Value → String
subscription_level log_level =
    let lvl = lower_value (or_info log_level) in
    if lvl == "error"
    then "errors"
    else if lvl == "warn"
    then "warn"
    else if lvl == "debug"
    then "trace"
    else "info"

abbrev pub level_order : List String
level_order = "errors" ∷ "warn" ∷ "info" ∷ "trace" ∷ []

-- `levels.some((sub) => LEVEL_ORDER.indexOf(sub) >= eventIndex)`
abbrev pub some_level : ℕ → List String → Bool
some_level event_index = any (λ sub. leb event_index (index_of level_order sub))

unfoldable pub subscription_includes_level : Value → Value → Option Bool
subscription_includes_level subscribed_levels event_log_level =
    elim (lowered_or (cons (string "errors") nil) subscribed_levels) [
      | none ↦ none
      | some levels ↦
          some (some_level (index_of level_order (subscription_level event_log_level)) levels)
    ]

unfoldable pub bridge_has_capability : Value → String → Option Bool
bridge_has_capability bridge_caps capability =
    let cap = lower_value (string capability) in
    if cap == ""
    then some false
    else elim (lowered_or nil bridge_caps) [ none ↦ none | some caps ↦ some (includes caps cap) ]

abbrev pub wants : List String → String → Bool
wants [] cap = true
wants (r ∷ rs) cap = includes (r ∷ rs) cap

unfoldable pub consumer_wants_capability : Value → String → Option Bool
consumer_wants_capability consumer_caps capability = elim (lowered_or nil consumer_caps) [
  | none ↦ none
  | some caps ↦ some (wants (keep (λ s. not (s == "")) caps) (lower_value (string capability)))
]
