-- ===== src/Mcp/Server.antt =====
-- src/mcp/server.ts: the resources and tools of the MCP server over the buffer and the consumer.
-- The transport and `@modelcontextprotocol/sdk` are left out: what is given to `notification` is
-- logged. An event of the consumer is read as a `BridgeEvent`, as the source's cast does.
pub mod Updates
mod Tests
use code_bridge.Base.{
  ℕ, String, Bool, Option, none, some, List, [], ◌∷◌, ◌++◌, map, ◌==◌, ◌||◌, if◌then◌else◌,
}
use code_bridge.Js.Value.{
  strings, Number, Value, Values, nil, cons, undefined, null, string, array, object, field, end,
}
use code_bridge.Protocol.{BridgeEvent}
use code_bridge.Mcp.EventBuffer.{
  EventBuffer, BufferedEvent, push, recent, errors, network, navigation, latest_screenshot,
}
use code_bridge.Mcp.Mappers.{
  BridgeMeta, Content, listing, latest, nothing_captured, project_metadata, project_stats,
}
use code_bridge.Mcp.Consumer.{Consumer, subscribe, send_control, close}
use code_bridge.Mcp.Validation.{
  Checked, ok, failed, Problem, SubscribeArgs, ControlArgs, validate_subscribe_args,
  validate_control_args, or_else,
}

pub data Notification : Type 0 where
  bridge_event_sent : BridgeEvent → Notification
  control_result_sent : Value → Notification
  resource_updated : String → Notification

pub record Server : Type 0 where
  pub meta : BridgeMeta
  pub consumer : Consumer
  pub buffer : EventBuffer
  pub notifications : List Notification

-- The list `uris` of `notifyResourceUpdates`.
unfoldable pub updated_uris : String → List String
updated_uris type =
    ("bridge://events/recent" ∷ "bridge://stats" ∷ [])
    ++ (if type == "error" then "bridge://events/errors" ∷ [] else [])
    ++ (if type == "network" then "bridge://events/network" ∷ [] else [])
    ++ (if type == "navigation" || type == "pageview"
        then "bridge://events/navigation" ∷ []
        else [])
    ++ (if type == "screenshot" then "bridge://events/screenshot" ∷ [] else [])

unfoldable pub notify_resource_updates : String → Server → Server
notify_resource_updates type s = record s {
  notifications = s.notifications ++ map resource_updated (updated_uris type);
}

unfoldable pub on_bridge_event : BridgeEvent → Server → Server
on_bridge_event event s = notify_resource_updates event.type (record s {
  buffer = (push event s.buffer).1;
  notifications = s.notifications ++ bridge_event_sent event ∷ [];
})

unfoldable pub on_control_result : Value → Server → Server
on_control_result result s = record s {
  notifications = s.notifications ++ control_result_sent result ∷ [];
}

-- `latest ? latest : { message }`
abbrev pub captured : Option BufferedEvent → Content
captured none = nothing_captured
captured (some e) = latest e

-- `none` is the error for an unknown uri.
unfoldable pub read_resource : String → Server → Option Content
read_resource uri s =
    if uri == "bridge://metadata"
    then some (project_metadata s.meta)
    else if uri == "bridge://events/recent"
    then some (listing (recent none s.buffer))
    else if uri == "bridge://events/errors"
    then some (listing (errors none s.buffer))
    else if uri == "bridge://events/network"
    then some (listing (network none s.buffer))
    else if uri == "bridge://events/navigation"
    then some (listing (navigation none s.buffer))
    else if uri == "bridge://events/screenshot"
    then some (captured (latest_screenshot s.buffer))
    else if uri == "bridge://stats"
    then some (project_stats (recent none s.buffer))
    else none

-- A tool call awaits the promise with a number, or has failed already.
pub data ToolCall : Type 0 where
  subscribing controlling : ℕ → ToolCall
  invalid : Problem → ToolCall
  unknown_tool : String → ToolCall

abbrev pub optional : {A : Type 0} → (A → Value) → Option A → Value
optional f none = undefined
optional f (some a) = f a

abbrev pub subscribe_message : SubscribeArgs → Value
subscribe_message a = object (
    field "type" (string "subscribe") (
      field "levels" (array (strings a.levels)) (
        field "capabilities" (optional (λ cs. array (strings cs)) a.capabilities)
          (field "llm_filter" (optional string a.llm_filter) end))))

-- The handler of a tool call. The id is made of the time and a random number.
module _ (to_number : Value → Number) where
  unfoldable pub call_subscribe : Value → Server → ToolCall × Server
  call_subscribe args s = elim (validate_subscribe_args args) [
    | failed p ↦ (invalid p, s)
    | ok a ↦ (
      subscribing s.consumer.calls,
      record s { consumer = subscribe (subscribe_message a) s.consumer },
    )
  ]

  unfoldable pub call_control : String → Value → Server → ToolCall × Server
  call_control id args s = elim (validate_control_args to_number args) [
    | failed p ↦ (invalid p, s)
    | ok a ↦ (
      controlling s.consumer.calls,
      record s {
        consumer = send_control id a.action (or_else a.args (optional string a.code)) s.consumer;
      },
    )
  ]

  unfoldable pub call_tool : String → String → Value → Server → ToolCall × Server
  call_tool name id args s =
      if name == "subscribe_to_events"
      then call_subscribe args s
      else if name == "send_control"
      then call_control id args s
      else (unknown_tool name, s)

unfoldable pub stop : Server → Server
stop s = record s { consumer = close s.consumer }
