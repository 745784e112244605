-- ===== src/Protocol/Views.antt =====
-- crates/whale-protocol/src/session_views.rs: the projection of a live session, the events that
-- change it, and their replay.
pub mod Types
pub mod Window
pub mod Validate
pub mod Stream
pub mod Apply
pub mod Replay
pub mod Advance
pub mod Tail
