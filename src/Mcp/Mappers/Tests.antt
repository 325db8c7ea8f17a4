-- ===== src/Mcp/Mappers/Tests.antt =====
-- src/mcp/mappers.ts on a few events.
use code_bridge.Base.{List, [], ◌∷◌}
use code_bridge.Protocol.{plain}
use code_bridge.Mcp.EventBuffer.{BufferedEvent}

abbrev events : List BufferedEvent
events =
    record { event = plain "console" "error" [] 1; id = 1 }
    ∷ record { event = plain "error" "error" [] 2; id = 2 }
    ∷ record { event = plain "console" "info" [] 3; id = 3 }
    ∷ []
