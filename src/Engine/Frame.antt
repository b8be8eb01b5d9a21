-- ===== src/Engine/Frame.antt =====
-- What one frame of the interpreter may do to what it shares with the frames that called it.
pub mod Relation
pub mod Messages
pub mod Atomic
pub mod Calls
