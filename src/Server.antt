-- ===== src/Server.antt =====
-- mcp/server.py: `KnoKeepServer`, the JSON-RPC server of the tools.
pub mod Handle
pub mod Lifecycle
pub mod Replies
pub mod WriteTool
pub mod Writes
