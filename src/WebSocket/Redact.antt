-- ===== src/WebSocket/Redact.antt =====
-- `validateAndRedact` and `redactObject` of src/websocket.ts.
use text.Mathlib.Text.{starts_with}
use code_bridge.Base.{
  ℕ, String, Bool, ◌||◌, Option, none, some, List, [], ◌∷◌, ◌++◌, ltb, any, take, length, ◌==◌,
  if◌then◌else◌,
}
use mathlib.Core.Option
use code_bridge.Js.Text.{to_lower_case}
use code_bridge.Js.Value.{Value, Values, Fields, object, string, nil, cons, end, field}
use code_bridge.Protocol.{BridgeEvent, Text, utf16}

-- `s.includes(part)`
unfoldable pub contains : String → String → Bool
contains String.[] part = starts_with String.[] part
contains (String.◌∷◌ c s) part = starts_with (String.◌∷◌ c s) part || contains s part

abbrev pub redact_keys : List String
redact_keys = "token" ∷ "secret" ∷ "password" ∷ []

unfoldable pub is_redacted : String → Bool
is_redacted k = any (contains (to_lower_case k)) redact_keys

abbrev pub redacted : Value
redacted = string "[redacted]"

unfoldable pub redact_fields : Fields → Fields
redact_fields end = end
redact_fields (field k v fs) = field k (if is_redacted k then redacted else v) (redact_fields fs)

-- The keys of an array are its indices, and no digits spell a redacted key.
unfoldable pub redact_object : Value → Value
unfolding redact_fields
redact_object (object fs) = object (redact_fields fs)
redact_object v = v

unfoldable pub redact_values : Values → Values
redact_values nil = nil
redact_values (cons v vs) = cons (redact_object v) (redact_values vs)

abbrev pub message_limit : ℕ
message_limit = 4000

unfoldable pub truncate_message : Text → Text
truncate_message m =
    if ltb message_limit (length m) then take message_limit m ++ utf16 "…[truncated]" else m

-- A breadcrumb has the keys `timestamp`, `level` and `message`, none of them redacted, so that it is
-- left as it is: `breadcrumb_kept` of WebSocket.Privacy. An event is an object here, so `null` stands
-- for an event with no type.
unfoldable pub validate_and_redact : BridgeEvent → Option BridgeEvent
unfolding truncate_message redact_values
validate_and_redact event =
    if event.type == ""
    then none
    else some (record event {
      message = truncate_message event.message;
      args = Option.map redact_values event.args;
    })
