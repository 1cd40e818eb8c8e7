-- ===== src/Tables.antt =====
-- The tables of MCP servers, agents and LLM providers: what the list pages filter and show.
pub mod Search
pub mod Rows
pub mod Cells
pub mod Narrowing
mod Tests
