-- ===== src/Api.antt =====
-- frontend/src/features/*/api.ts: the requests that the client makes, and what it makes of answers.
pub mod Calls
pub mod Parts
pub mod Reading
pub mod Distinct
pub mod Answers
mod Tests
