-- ===== src/Providers.antt =====
-- frontend/src/features/llmProviders: the form of a provider, and the tests of its models.
pub mod Texts
pub mod Form
pub mod Reading
pub mod Submitting
pub mod Untouched
pub mod Testing
pub mod Tested
mod Tests
