-- ===== src/Mcp.antt =====
-- app/auth/mcp_auth_provider.py: the authentication of the MCP server.
mod Tests
pub mod Bearer
pub mod Settings
pub mod Audience
pub mod Patched
