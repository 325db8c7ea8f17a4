-- ===== src/Mcp/Mappers.antt =====
-- src/mcp/mappers.ts and src/mcp/types.ts: what a resource shows. `JSON.stringify` of it is left out.
pub mod Tally
mod Tests
use code_bridge.Base.{
  ℕ, suc, String, Option, none, some, List, [], ◌∷◌, length, keep, ◌==◌, if◌then◌else◌,
}
use code_bridge.Mcp.EventBuffer.{BufferedEvent, is_error, last_id}

pub record BridgeMeta : Type 0 where
  pub url : String
  pub secret : String
  pub port : Option ℕ
  pub workspace_path : Option String
  pub pid : Option ℕ
  pub heartbeat_at : Option String
  pub started_at : Option String

pub record Projection : Type 0 where
  pub total : ℕ
  pub errors : ℕ
  pub by_type : List (String × ℕ)
  pub last_event_id : ℕ

pub data Content : Type 0 where
  metadata : BridgeMeta → Content
  listing : List BufferedEvent → Content
  latest : BufferedEvent → Content
  nothing_captured : Content
  statistics : Projection → Content

unfoldable pub project_metadata : BridgeMeta → Content
project_metadata meta = metadata (record meta { secret = "[redacted]" })

-- `byType[t] = (byType[t] || 0) + 1`
unfoldable pub add_one : String → List (String × ℕ) → List (String × ℕ)
add_one t [] = (t, 1) ∷ []
add_one t ((k, n) ∷ rest) = if k == t then (k, suc n) ∷ rest else (k, n) ∷ add_one t rest

unfoldable pub tally : List BufferedEvent → List (String × ℕ) → List (String × ℕ)
tally [] counts = counts
tally (e ∷ es) counts = tally es (add_one e.type counts)

unfoldable pub project_stats : List BufferedEvent → Content
project_stats events = statistics (record {
  total = length events;
  errors = length (keep is_error events);
  by_type = tally events [];
  last_event_id = last_id events;
})
