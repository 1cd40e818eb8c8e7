-- ===== src/Async.antt =====
-- The data hooks of frontend/src/features: loading, mutating, and answers that come late.
pub mod Types
pub mod Request
pub mod Latest
pub mod Mutation
pub mod Wrappers
pub mod Pending
pub mod Effect
pub mod Closures
pub mod Features
mod Tests
