-- ===== src/Engine/Ops.antt =====
-- The opcode handlers of internal/engine, one module for each `op_*.go`.
pub mod Big
pub mod Arith
pub mod Compare
pub mod Control
pub mod Memory
pub mod Storage
pub mod Environment
pub mod Halting
pub mod Message
pub mod Call
pub mod Create
