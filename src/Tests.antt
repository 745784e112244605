-- ===== src/Tests.antt =====
-- The theorems at concrete inputs: a small implementation of the environment, a session, and the
-- applications.
pub mod Json
pub mod Session
pub mod Runs
pub mod Stores
pub mod Contexts
pub mod Views
