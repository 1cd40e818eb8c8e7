-- ===== src/Http.antt =====
-- frontend/src/lib/apiClient.ts: the JSON client and its errors.
pub mod Client
pub mod Errors
