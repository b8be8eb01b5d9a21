-- ===== src/Fork.antt =====
-- internal/forkengine: execution on top of a chain that another node serves.
pub mod Overlay
pub mod Slots
pub mod Accounts
mod Tests
