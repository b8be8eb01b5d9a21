-- ===== src/Engine/World.antt =====
-- internal/engine/state_impl.go: what the frames of a transaction share.
pub mod Storage
pub mod Account
pub mod Access
