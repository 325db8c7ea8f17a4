-- ===== src/Mcp/Validation/Tests.antt =====
-- src/mcp/validation.ts on a few arguments.
use code_bridge.Base.{◌≡◌, refl, [], ◌∷◌, none, some, true}
use code_bridge.Js.Text.{to_lower_case, includes}
use code_bridge.Js.Value.{
  Value, Values, Number, get_field, truthy, int, nan, undefined, string, array, object, field, end,
  nil, cons,
}
use code_bridge.Mcp.Validation.{
  ok, failed, SubscribeArgs, ControlArgs, validate_subscribe_args, validate_control_args,
  checked_control, action_of, timeout_of, normalize_array, normalize_one, add_entries, add_entry,
  push_new, levels_allowed, invalid_entry,
}
use code_bridge.Mcp.Validation.Entries.{first_problem, lowered, firsts, normalize_array-entries}
use code_bridge.Mcp.Validation.Ranges.{IsAction, IsTimeout, validate_control_args-ranges}

abbrev to_nan : Value → Number
to_nan v = nan

abbrev entries : Values
entries = cons (string "Warn") (cons (string "errors") (cons (string "WARN") nil))

levels_taken : normalize_array (array entries) levels_allowed "levels" ≡ ok ("warn" ∷ "errors" ∷ [])
unfolding normalize_array add_entries add_entry push_new includes to_lower_case
levels_taken = refl

level_refused :
    normalize_array
      (array (cons (string "warn") (cons (string "Debug") entries)))
      levels_allowed
      "levels"
    ≡ failed (invalid_entry "levels" "Debug")
unfolding normalize_array add_entries add_entry push_new includes to_lower_case
level_refused = refl

normalize_array-entries_example :
    normalize_array (array entries) levels_allowed "levels"
    ≡ elim (first_problem "levels" levels_allowed entries) [
      | none ↦ ok (firsts (lowered entries))
      | some p ↦ failed p
    ]
normalize_array-entries_example = normalize_array-entries "levels" levels_allowed entries

abbrev wish : Value
wish = object (field "levels" (array entries) (field "llm_filter" (string "Off") end))

abbrev granted : SubscribeArgs
granted = record { levels = "warn" ∷ "errors" ∷ []; capabilities = none; llm_filter = some "off" }

wish-granted : validate_subscribe_args wish ≡ ok granted
unfolding validate_subscribe_args get_field truthy normalize_array normalize_one add_entries
    add_entry push_new includes to_lower_case
wish-granted = refl

abbrev call : Value
call = object (field "action" (string "eval") (field "code" (string "1") end))

abbrev accepted : ControlArgs
accepted = record {
  action = "eval";
  args = undefined;
  code = some "1";
  timeout_ms = int 10000;
  expect_result = true;
}

call_accepted : validate_control_args to_nan call ≡ ok accepted
unfolding validate_control_args checked_control action_of timeout_of get_field
call_accepted = refl

validate_control_args-ranges_example :
    IsAction (get_field "action" call) accepted.action
    × IsTimeout to_nan (get_field "timeoutMs" call) accepted.timeout_ms
validate_control_args-ranges_example =
    validate_control_args-ranges to_nan call accepted call_accepted
