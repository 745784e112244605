-- ===== src/Store/Backend.antt =====
-- The backends (crates/whale-store/src/backend.rs): what may replace a stored record, and the
-- store in memory.
pub mod Replace
pub mod Interface
pub mod Memory
pub mod Extends
pub mod Accepted
pub mod Commits
pub mod Dispatch
