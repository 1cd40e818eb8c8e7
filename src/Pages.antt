-- ===== src/Pages.antt =====
-- The pages of frontend/src/features/*/pages: what their handlers do, and what they show.
pub mod Handler
pub mod Servers
pub mod Providers
pub mod Agents
pub mod Steps
pub mod Views
pub mod Shown
pub mod Deleting
pub mod Saving
mod Tests
