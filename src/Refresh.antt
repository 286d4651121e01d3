-- ===== src/Refresh.antt =====
-- src/sdk/refresh.rs: a package that is kept up to date.
pub mod Backoff
pub mod State
pub mod Steps
pub mod Attempts
mod Tests
