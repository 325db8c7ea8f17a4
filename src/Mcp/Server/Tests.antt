-- ===== src/Mcp/Server/Tests.antt =====
-- src/mcp/server.ts on a few events.
use code_bridge.Base.{eq_iff, arith, get_last?, ◌≡◌, ◌≢◌, refl, none, some, false, []}
use code_bridge.Js.Text.{includes}
use code_bridge.Js.Value.{int}
use code_bridge.Protocol.{BridgeEvent, plain}
use code_bridge.Mcp.EventBuffer.{new, errors}
use code_bridge.Mcp.Mappers.{BridgeMeta}
use code_bridge.Mcp.Server.{Server, on_bridge_event, read_resource, updated_uris}
use code_bridge.Mcp.Server.Updates.{stored, HasRoom, unnotified_unchanged, error_level_unnotified}

abbrev host : BridgeMeta
host = record {
  url = "ws://localhost:9876";
  secret = "dev-secret";
  port = some 9876;
  workspace_path = none;
  pid = none;
  heartbeat_at = none;
  started_at = none;
}

abbrev started : Server
started = record {
  meta = host;
  consumer = code_bridge.Mcp.Consumer.new "dev-secret" "mcp";
  buffer = new (some (int 500));
  notifications = [];
}

abbrev logged : BridgeEvent
logged = plain "console" "error" [] 7

abbrev moved : BridgeEvent
moved = plain "navigation" "info" [] 8

started-HasRoom : HasRoom started.buffer
unfolding new
started-HasRoom = refl

logged_type : logged.type ≢ "error"
logged_type p = absurd (ground (arith, eq_iff "console" "error"))

moved_level : moved.level ≡ "error" → moved.type ≡ "error"
moved_level p = absurd (ground (arith, eq_iff "info" "error"))

moved_unsaid : includes (updated_uris moved.type) "bridge://events/errors" ≡ false
unfolding includes updated_uris
moved_unsaid = refl

unnotified_unchanged_example :
    read_resource "bridge://events/errors" (on_bridge_event moved started)
    ≡ read_resource "bridge://events/errors" started
unnotified_unchanged_example =
    unnotified_unchanged moved started "bridge://events/errors" started-HasRoom moved_level
      moved_unsaid

error_level_unnotified_example :
    (includes (updated_uris logged.type) "bridge://events/errors" ≡ false)
    × (get_last? (errors none (on_bridge_event logged started).buffer)
        ≡ some (stored logged started.buffer))
error_level_unnotified_example =
    error_level_unnotified logged started started-HasRoom refl logged_type
