-- ===== src/Daemon/Views.antt =====
-- crates/whale-daemon/src/session_views.rs: the live projection of a session, the journal of its
-- events, and their replay to a client.
pub mod Journal
pub mod Records
pub mod Rebuild
pub mod Scrub
pub mod Sound
pub mod Walk
pub mod Tracks
pub mod Requests
pub mod Served
pub mod Pages
pub mod Registry
pub mod Isolated
pub mod Reached
