-- ===== src/Chat.antt =====
-- frontend/src/features/sop/pages/ChatPage.tsx: starting a check and observing it.
pub mod Page
pub mod Starts
mod Tests
