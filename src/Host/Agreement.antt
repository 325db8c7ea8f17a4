-- ===== src/Host/Agreement.antt =====
-- The host's tests against those of src/host-utils.ts, for the subscriptions that the protocol has:
-- arrays of texts.
use code_bridge.Base.{
  eq_iff, inl, inr, ℕ, String, ◌≡◌, refl, ap, ◌∙◌, Bool, true, false, not, ◌&&◌, ◌||◌, some, List,
  [], ◌∷◌, ◌==◌, any, keep, if◌then◌else◌, Bool-cases,
}
use code_bridge.Js.Value.{Value, string, get_field, strings, or_value, truthy}
use code_bridge.Js.Text.{to_lower_case_idem, to_lower_case}
use code_bridge.Js.Print.{lower_value, to_text}
use code_bridge.HostUtils.{
  lower, index_of, level_of_lower, get_subscription_level_for_log_level, effective_levels, reaches,
  lower_all, requested, subscription_includes_level as utils_includes_level,
  bridge_has_capability as utils_has_capability,
  consumer_wants_capability as utils_wants_capability, wants as utils_wants,
}
use code_bridge.Host.Levels.{
  level_order, text_array, lower_values, lowered_or, subscription_level, some_level,
  subscription_includes_level, bridge_has_capability, wants, consumer_wants_capability,
}
use code_bridge.Host.Routing.{and_if, needs_capability, check_route}

lower_values-strings : (ss : List String) → lower_values (strings ss) ≡ lower_all ss
unfolding lower_values lower lower_value to_text
lower_values-strings [] = refl
lower_values-strings (s ∷ ss) = ap (λ rest. to_lower_case s ∷ rest) (lower_values-strings ss)

some_level-lower_all : (n : ℕ) (ss : List String) → some_level n (lower_all ss) ≡ any (reaches n) ss
unfolding reaches
some_level-lower_all n [] = refl
some_level-lower_all n (s ∷ ss) = rw (some_level-lower_all n ss)

includes_level_agrees :
    (l : String) (ls : List String) (level : String)
    → subscription_includes_level (text_array (l ∷ ls)) (string level)
      ≡ some (utils_includes_level (some (l ∷ ls)) (some level))
unfolding subscription_includes_level utils_includes_level lowered_or effective_levels
    subscription_level get_subscription_level_for_log_level level_of_lower lower lower_value to_text
includes_level_agrees l ls level =
    let n = index_of level_order (subscription_level (string level)) in
    rw (lower_values-strings (l ∷ ls), some_level-lower_all n (l ∷ ls))

has_capability_agrees :
    (caps : List String) (cap : String)
    → bridge_has_capability (text_array caps) cap ≡ some (utils_has_capability (some caps) cap)
unfolding bridge_has_capability utils_has_capability lowered_or lower lower_value to_text
has_capability_agrees caps cap = elim (Bool-cases (to_lower_case cap == "")) [
  | inl e ↦ rw e refl
  | inr e ↦ rw (e, lower_values-strings caps) refl
]

wants_agrees : (ss : List String) (cap : String) → wants ss cap ≡ utils_wants ss cap
unfolding utils_wants
wants_agrees [] cap = refl
wants_agrees (s ∷ ss) cap = refl

wants_capability_agrees :
    (caps : List String) (cap : String)
    → consumer_wants_capability (text_array caps) cap
      ≡ some (utils_wants_capability (some caps) cap)
unfolding consumer_wants_capability utils_wants_capability requested lowered_or lower lower_value
    to_text
wants_capability_agrees caps cap =
    rw (lower_values-strings caps)
      (ap some (wants_agrees (keep (λ s. not (s == "")) (lower_all caps)) (to_lower_case cap)))

or_value-text : (s : String) → (s == "") ≡ false → or_value (string s) (string "info") ≡ string s
unfolding or_value truthy
or_value-text s n = rw n refl

lowered_type : (s : String) → lower_value (or_value (string s) (string "")) ≡ to_lower_case s
unfolding or_value truthy lower_value to_text
lowered_type s = elim (Bool-cases (s == "")) [
  | inl e ↦ rw (e, (eq_iff s "").0 e) refl
  | inr e ↦ rw e refl
]

wants_lowered :
    (caps : List String) (s : String)
    → utils_wants_capability (some caps) (to_lower_case s) ≡ utils_wants_capability (some caps) s
unfolding utils_wants_capability lower
wants_lowered caps s = rw (to_lower_case_idem s) refl

has_lowered :
    (caps : List String) (s : String)
    → utils_has_capability (some caps) (to_lower_case s) ≡ utils_has_capability (some caps) s
unfolding utils_has_capability lower
has_lowered caps s = rw (to_lower_case_idem s) refl

combined :
    (a needed b c : Bool)
    → and_if (some a) (if needed then and_if (some b) (some c) else some true)
      ≡ some (a && (not needed || b && c))
combined true true true c = refl
combined true true false c = refl
combined true false b c = refl
combined false needed b c = refl

-- The types of message that need a capability.
abbrev pub gated : List String
gated = "pageview" ∷ "screenshot" ∷ "control" ∷ "network" ∷ "navigation" ∷ []

-- A word is in a list.
abbrev pub is_among : String → List String → Bool
is_among s [] = false
is_among s (w ∷ ws) = s == w || is_among s ws

regrouped : (a b c d e : Bool) → (a || b || c || d || e) ≡ (a || (b || (c || (d || (e || false)))))
regrouped true b c d e = refl
regrouped false true c d e = refl
regrouped false false true d e = refl
regrouped false false false true e = refl
regrouped false false false false true = refl
regrouped false false false false false = refl

needs_capability-gated : (t : String) → needs_capability t ≡ is_among t gated
needs_capability-gated t =
    regrouped (t == "pageview") (t == "screenshot") (t == "control") (t == "network")
      (t == "navigation")

-- What the functions of src/host-utils.ts say of an event of the type, at the level.
abbrev pub agreed : List String → List String → String → String → List String → Bool
agreed levels caps level type bridge_caps =
    utils_includes_level (some levels) (some level)
    && (not (is_among (to_lower_case type) gated)
        || utils_wants_capability (some caps) type && utils_has_capability (some bridge_caps) type)

-- For a consumer that subscribed to at least one level, the host decides after the filter as the
-- functions of src/host-utils.ts do: the level is included, and a message of the type pageview,
-- screenshot, control, network or navigation, in any letter case, is wanted by the consumer and the
-- bridge has that capability. It throws nothing. The capabilities and levels are arrays of texts.
pub check_route-agreed :
    (l : String) (ls caps bridge_caps : List String) (level type : String) (message : Value)
    → get_field "level" message ≡ string level
    → get_field "type" message ≡ string type
    → (level == "") ≡ false
    → check_route (text_array (l ∷ ls)) (text_array caps) message (text_array bridge_caps)
      ≡ some (agreed (l ∷ ls) caps level type bridge_caps)
unfolding check_route
check_route-agreed l ls caps bridge_caps level type message le te n =
    let t = to_lower_case type in
    rw
      (
        le,
        te,
        or_value-text level n,
        lowered_type type,
        includes_level_agrees l ls level,
        wants_capability_agrees caps t,
        has_capability_agrees bridge_caps t,
        wants_lowered caps type,
        has_lowered bridge_caps type,
      )
      (combined _ (needs_capability t) _ _
        ∙ ap
            (λ needed. some (
              utils_includes_level (some (l ∷ ls)) (some level)
              && (not needed
                  || utils_wants_capability (some caps) type
                    && utils_has_capability (some bridge_caps) type)))
            (needs_capability-gated t))

-- A consumer whose list of levels is empty gets nothing, where src/host-utils.ts takes the empty list
-- for `errors`.
pub check_route-empty :
    (caps bridge_caps : Value) (message : Value)
    → check_route (text_array []) caps message bridge_caps ≡ some false
unfolding check_route subscription_includes_level lowered_or lower_values
check_route-empty caps bridge_caps message = refl
