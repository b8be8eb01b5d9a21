-- ===== src/Varpeek.antt =====
-- internal/varpeeker: what is known of the variables of a contract while it runs.
pub mod Tracker
pub mod Decode
mod Tests
