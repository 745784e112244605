-- ===== src/Core.antt =====
-- The execution core (crates/whale-core): the projections of a history and the limits of a session.
pub mod Context
pub mod Session
