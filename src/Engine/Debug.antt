-- ===== src/Engine/Debug.antt =====
-- The hooks and breakpoints of internal/engine.
pub mod Registry
pub mod Breakpoint
pub mod Manager
mod Tests
