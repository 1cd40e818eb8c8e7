-- ===== src/Routing.antt =====
-- frontend/src/app/routing: the routes of the workspace and who may open them.
pub mod Routes
pub mod Access
