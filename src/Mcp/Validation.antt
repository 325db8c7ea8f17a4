-- ===== src/Mcp/Validation.antt =====
-- src/mcp/validation.ts: checking the arguments of the tools. A thrown error is `failed`.
-- `Number(val)` of a value that is not a number is a parameter, `to_number`.
pub mod Entries
pub mod Ranges
mod Tests
use code_bridge.Base.{
  String, Bool, true, false, not, Option, none, some, List, [], ◌∷◌, ◌++◌, if◌then◌else◌, ◌==◌,
  nat_eq,
}
use code_bridge.Js.Text.{to_lower_case, includes}
use code_bridge.Js.Value.{
  Value, Values, Number, nan, infinity, neg_infinity, int, neg, undefined, null, bool, number,
  string, array, object, nil, cons, get_field, truthy,
}

pub data Problem : Type 0 where
  must_be_array must_contain_strings must_be_string must_be_positive : String → Problem
  invalid_entry invalid_value : String → String → Problem
  must_be_object action_required : Problem

pub data Checked {ℓ} (A : Type ℓ) : Type ℓ where
  ok : A → Checked A
  failed : Problem → Checked A

module _ {ℓ κ} {A : Type ℓ} {B : Type κ} where
  infixl 5 ◌>>=◌
  abbrev pub ◌>>=◌ : Checked A → (A → Checked B) → Checked B
  m >>= f = elim m [ ok a ↦ f a | failed p ↦ failed p ]

abbrev pub levels_allowed : List String
levels_allowed = "errors" ∷ "warn" ∷ "info" ∷ "trace" ∷ []

abbrev pub caps_allowed : List String
caps_allowed =
    "error" ∷ "console" ∷ "pageview" ∷ "navigation" ∷ "screenshot" ∷ "network" ∷ "control" ∷ []

abbrev pub filters_allowed : List String
filters_allowed = "off" ∷ "minimal" ∷ "aggressive" ∷ []

-- `if (!normalized.includes(lower)) normalized.push(lower)`
unfoldable pub push_new : String → List String → List String
push_new s normalized = if includes normalized s then normalized else normalized ++ s ∷ []

unfoldable pub add_entry : String → List String → Value → List String → Checked (List String)
add_entry field allowed (string item) normalized =
    if includes allowed (to_lower_case item)
    then ok (push_new (to_lower_case item) normalized)
    else failed (invalid_entry field item)
add_entry field allowed _ normalized = failed (must_contain_strings field)

-- `val.forEach`, which a throw ends
unfoldable pub add_entries : String → List String → Values → List String → Checked (List String)
add_entries field allowed nil normalized = ok normalized
add_entries field allowed (cons v vs) normalized = do
  more ← add_entry field allowed v normalized
  add_entries field allowed vs more

unfoldable pub normalize_array : Value → List String → String → Checked (List String)
normalize_array undefined allowed name = ok []
normalize_array (array vs) allowed name = add_entries name allowed vs []
normalize_array _ allowed name = failed (must_be_array name)

unfoldable pub normalize_one : Value → List String → String → Checked String
normalize_one (string s) allowed name =
    if includes allowed (to_lower_case s)
    then ok (to_lower_case s)
    else failed (invalid_value name s)
normalize_one _ allowed name = failed (must_be_string name)

pub record SubscribeArgs : Type 0 where
  pub levels : List String
  pub capabilities : Option (List String)
  pub llm_filter : Option String

-- `v ?? d`
abbrev pub or_else : Value → Value → Value
or_else undefined d = d
or_else null d = d
or_else v d = v

-- `v ? check(v) : undefined`
abbrev pub when_given : {A : Type 0} → Value → Checked A → Checked (Option A)
when_given v check = if truthy v then (do a ← check; ok (some a)) else ok none

unfoldable pub validate_subscribe_args : Value → Checked SubscribeArgs
validate_subscribe_args raw = do
  levels ←
      normalize_array (or_else (get_field "levels" raw) (array (cons (string "errors") nil)))
        levels_allowed "levels"
  capabilities ←
      when_given (get_field "capabilities" raw)
        (normalize_array (get_field "capabilities" raw) caps_allowed "capabilities")
  llm_filter ←
      when_given (get_field "llm_filter" raw)
        (normalize_one (get_field "llm_filter" raw) filters_allowed "llm_filter")
  ok (record { levels = levels; capabilities = capabilities; llm_filter = llm_filter })

-- `Number.isFinite(num) && num > 0`
abbrev pub is_positive : Number → Bool
is_positive nan = false
is_positive infinity = false
is_positive neg_infinity = false
is_positive (int n) = not (nat_eq n 0)
is_positive (neg n) = false

pub record ControlArgs : Type 0 where
  pub action : String
  pub args : Value
  pub code : Option String
  pub timeout_ms : Number
  pub expect_result : Bool

abbrev pub expects : Value → Bool
expects undefined = true
expects v = truthy v

abbrev pub string_only : Value → Option String
string_only (string s) = some s
string_only v = none

-- `typeof raw !== 'object'`; what an array would have under these names is left out.
abbrev pub is_object : Value → Bool
is_object (object fs) = true
is_object (array vs) = true
is_object v = false

unfoldable pub action_of : Value → Checked String
action_of (string s) = if s == "" then failed action_required else ok s
action_of v = failed action_required

module _ (to_number : Value → Number) where
  abbrev pub number_of : Value → Number
  number_of (number n) = n
  number_of v = to_number v

  unfoldable pub coerce_positive_int : Value → String → Checked Number
  coerce_positive_int val name =
      if is_positive (number_of val) then ok (number_of val) else failed (must_be_positive name)

  unfoldable pub timeout_of : Value → Checked Number
  timeout_of undefined = ok (int 10000)
  timeout_of v = coerce_positive_int v "timeoutMs"

  unfoldable pub checked_control : Value → Checked ControlArgs
  checked_control raw = do
    action ← action_of (get_field "action" raw)
    timeout_ms ← timeout_of (get_field "timeoutMs" raw)
    ok (record {
      action = action;
      args = get_field "args" raw;
      code = string_only (get_field "code" raw);
      timeout_ms = timeout_ms;
      expect_result = expects (get_field "expectResult" raw);
    })

  unfoldable pub validate_control_args : Value → Checked ControlArgs
  validate_control_args raw = if is_object raw then checked_control raw else failed must_be_object
