-- ===== src/Session.antt =====
-- frontend/src/features/sessions: the messages of an agent session and their live stream.
pub mod Types
pub mod Reducer
pub mod Bounded
pub mod Delivery
pub mod LiveText
pub mod Stream
pub mod Connection
pub mod Greatest
pub mod Resume
pub mod Listeners
pub mod Liveness
pub mod Steady
pub mod Wire
pub mod Groups
pub mod Refinement
pub mod Orders
mod Tests
mod LogTests
