-- ===== src/Check.antt =====
-- frontend/src/features/sop-quality-checks: the view of a running SOP quality check.
pub mod Types
pub mod Reducer
pub mod Nodes
pub mod Frame
pub mod Lifecycle
pub mod Projection
pub mod Order
pub mod Observer
pub mod Turns
pub mod Hook
pub mod Wire
pub mod Live
pub mod Result
pub mod Page
pub mod Followed
pub mod Switching
mod Tests
mod HookTests
mod PageTests
