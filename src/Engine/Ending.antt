-- ===== src/Engine/Ending.antt =====
-- Messages come to an end: how far handlers, rounds and calls move on, and what they spend.
pub mod Rules
pub mod Parts
pub mod Hooked
pub mod Handlers
pub mod Ready
pub mod Charges
pub mod Sends
pub mod Messages
pub mod Costs
pub mod DynamicGas
pub mod Execute
pub mod Handled
pub mod Rounds
pub mod Loop
pub mod Settled
pub mod Calls
