-- ===== src/Mcp.antt =====
-- frontend/src/features/mcp/components: what a user submits about an MCP server.
pub mod Form
pub mod Secrets
pub mod Texts
pub mod Filling
pub mod Menu
pub mod Keys
pub mod Untouched
mod Tests
mod MenuTests
