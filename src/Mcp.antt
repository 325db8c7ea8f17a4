-- ===== src/Mcp.antt =====
-- src/mcp: the MCP wrapper, a consumer of the host that buffers events for MCP clients.
pub mod EventBuffer
pub mod Consumer
pub mod Validation
pub mod Mappers
pub mod Server
pub mod Config
pub mod Cli
