-- ===== src/Engine/Static.antt =====
-- What a static call may do to the accounts, the storage and the transient storage.
pub mod Relation
pub mod Handlers
pub mod Calls
