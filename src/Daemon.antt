-- ===== src/Daemon.antt =====
-- crates/whale-daemon: the projections of the live sessions that the daemon serves.
pub mod Views
