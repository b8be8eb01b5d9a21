-- ===== src/Engine.antt =====
-- internal/engine: the EVM interpreter and its state.
pub mod Types
pub mod Stack
pub mod Memory
pub mod Gas
pub mod Opcodes
pub mod World
pub mod Evm
pub mod Ops
pub mod Interpreter
pub mod Precompiles
pub mod Respecting
pub mod Frame
pub mod Static
pub mod Ending
pub mod Opened
pub mod Debug
pub mod Facade
pub mod Tests
