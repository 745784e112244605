-- ===== src/Store/State.antt =====
-- The session record's state machine (crates/whale-store/src/state.rs).
pub mod Queries
pub mod Validate
pub mod Usage
pub mod Begin
pub mod Mutate
pub mod Finalize
pub mod Kept
pub mod Closed
pub mod Gains
pub mod Ended
pub mod Recovered
pub mod Admitted
pub mod Dispatched
pub mod Summed
