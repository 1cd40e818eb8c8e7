-- ===== src/Agents.antt =====
-- frontend/src/features/agents: the form of an agent.
pub mod Form
pub mod Saving
pub mod Settling
pub mod Submitting
pub mod Untouched
pub mod Choices
mod Tests
