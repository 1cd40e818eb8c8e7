-- ===== src/Workspace.antt =====
-- frontend/src/app and the sign-in of frontend/src/features/auth: the pages of the routes, the
-- sidebar with its list of recent checks, and the choice of a user in development.
pub mod Shell
pub mod Clicks
pub mod Accounts
pub mod SignIn
pub mod Recent
pub mod Listing
mod Tests
