-- ===== src/Store.antt =====
-- The durable session store (crates/whale-store): records, their state machine, the backends, the
-- journal worker and retention.
pub mod Error
pub mod Types
pub mod Env
pub mod State
pub mod Configuration
pub mod Retention
pub mod Backend
pub mod Journal
pub mod Runtime
