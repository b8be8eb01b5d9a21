-- ===== src/Srcmap.antt =====
-- internal/srcmap: the source maps of the Solidity compiler.
pub mod Texts
pub mod Ranges
pub mod Map
mod Tests
