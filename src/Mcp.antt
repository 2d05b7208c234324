-- ===== src/Mcp.antt =====
-- internal/mcp: the MCP server over stdin and stdout.
pub mod Framing
pub mod Rpc
pub mod Tools
pub mod Server
pub mod Guarded
pub mod Loop
pub mod Handshake
