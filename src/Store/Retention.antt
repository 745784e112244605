-- ===== src/Store/Retention.antt =====
-- Retention (crates/whale-store/src/retention.rs): timestamps, retirement and the sweep.
pub mod Lifecycle
pub mod Sweep
pub mod Protected
