-- ===== src/Protocol.antt =====
-- The data that the crates exchange (crates/whale-protocol): conversation items, run snapshots,
-- retention policies and recovery records.
pub mod Canonical
pub mod Runs
pub mod Recovery
pub mod Limits
pub mod Events
pub mod Views
