-- ===== src/Auth.antt =====
-- frontend/src/features/auth: who is logged in.
pub mod Context
pub mod Races
mod Tests
