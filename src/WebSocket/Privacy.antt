-- ===== src/WebSocket/Privacy.antt =====
-- What an event still says after `validateAndRedact`.
use mathlib.Core.Option
use Prim.Native.String.{◌++◌ as ◌<>◌}
use code_bridge.Js.Text.{to_lower_case}
use code_bridge.Base.{String, ◌⊎◌}
use code_bridge.Base.{◌≤◌, ◌≡◌, refl, Option, none, some, length}
use code_bridge.Js.Value.{Value, Values, Fields, object, string, nil, cons, end, field}
use code_bridge.Protocol.{BridgeEvent, Text}
use code_bridge.WebSocket.Redact.{
  contains, is_redacted, redact_object, redact_values, message_limit, truncate_message,
}

abbrev pub IsSensitive : String → Type 0
IsSensitive w = (w ≡ "token") ⊎ (w ≡ "secret") ⊎ (w ≡ "password")

-- The name holds token, secret or password, in any letter case.
abbrev pub IsConfidential : String → Type 0
IsConfidential k =
    (before : String) × (w : String) × (after : String) × IsSensitive w
    × (to_lower_case k ≡ before <> (w <> after))

-- A field with a confidential name holds no value of its own.
abbrev pub CleanFields : Fields → Type 0
CleanFields end = Unit {0}
CleanFields (field k v fs) = (IsConfidential k → v ≡ string "[redacted]") × CleanFields fs

abbrev pub Clean : Value → Type 0
Clean (object fs) = CleanFields fs
Clean _ = Unit {0}

abbrev pub CleanValues : Values → Type 0
CleanValues nil = Unit {0}
CleanValues (cons v vs) = Clean v × CleanValues vs

abbrev pub CleanArgs : Option Values → Type 0
CleanArgs none = Unit {0}
CleanArgs (some vs) = CleanValues vs

abbrev pub IsSafe : BridgeEvent → BridgeEvent → Type 0
IsSafe e safe =
    CleanArgs safe.args
    × (length safe.message ≤ 4012)
    × (length e.message ≤ message_limit → safe.message ≡ e.message)
    × (safe ≡ record e { message = safe.message; args = safe.args })

safe_event : BridgeEvent → BridgeEvent
safe_event e = record e {
  message = truncate_message e.message;
  args = Option.map redact_values e.args;
}

-- The keys of a breadcrumb are never redacted, so that `redactObject` leaves it as it is.
breadcrumb_kept :
    (timestamp level message : Value)
    → redact_object
        (object (field "timestamp" timestamp (field "level" level (field "message" message end))))
      ≡ object (field "timestamp" timestamp (field "level" level (field "message" message end)))
unfolding redact_object is_redacted contains to_lower_case
breadcrumb_kept timestamp level message = refl
