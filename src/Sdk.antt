-- ===== src/Sdk.antt =====
-- crates/whale-sdk-rust: the client's subscription to the events of a session.
pub mod Subscription
pub mod CatchUp
pub mod Loop
pub mod Follow
pub mod Sent
pub mod Contiguous
pub mod Terminates
