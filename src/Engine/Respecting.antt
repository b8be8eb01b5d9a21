-- ===== src/Engine/Respecting.antt =====
-- What respects every relation that allows the quiet changes: most handlers, the dynamic gas, and
-- the rounds of the interpreter if the handlers do.
pub mod Handlers
pub mod DynamicGas
pub mod Rounds
