-- ===== src/Mcp.antt =====
-- mcp/src/main.rs: the MCP server, with its client of a remote service, and install.rs: the installer, which
-- enters the server into the configuration of MCP clients.
pub mod Clients
pub mod Json
pub mod Merge
pub mod RoundTrip
pub mod Remote
pub mod Tools
pub mod Toml
