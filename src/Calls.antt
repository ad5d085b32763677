-- ===== src/Calls.antt =====
-- runtime/src/contract.ts: calls from the circuit of one contract to a circuit of another.
pub mod Resolve
pub mod Enter
pub mod Claim
pub mod Check
pub mod Cross
pub mod Guard
pub mod Active
pub mod Kept
pub mod Trusted
pub mod Entered
pub mod Running
pub mod Returned
pub mod Proper
pub mod Nested
pub mod Progress
pub mod Runs
