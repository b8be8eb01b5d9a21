-- ===== src/Engine/Interpreter.antt =====
-- internal/engine/interpreter.go
pub mod Uint64
pub mod Dispatch
pub mod Jumpdests
pub mod DynamicGas
pub mod Execute
pub mod Run
