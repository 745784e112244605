-- ===== src/Lib.antt =====
-- whale_ai_sdk runs agents: a daemon keeps sessions, each with an append-only history of
-- conversation items, and a durable store makes every run recoverable. Clients follow a live session
-- through a snapshot and the events after it. This library models the store, the model contexts,
-- the admission of turns, and the projections, the replay and the subscriptions of live sessions.
--
-- The parts and how they interact:
-- - Protocol (crates/whale-protocol): the data that all parts exchange. Protocol/Canonical is
--   canonical.rs, Protocol/Runs is runs.rs with the parts of events.rs, contexts.rs and rpc.rs that
--   a run holds, Protocol/Recovery is recovery.rs, Protocol/Limits is retention.rs.
--   Protocol/Views is session_views.rs: Types, Window (`SessionHistoryWindow`), Validate, Stream and
--   Apply (`SessionSnapshot::apply`), Replay (the request, its answer and `validate_for`).
-- - Store (crates/whale-store): Store/Types and Store/State are the record of a session and its
--   operations (state.rs): `validate`, `begin`, `mutate`, `finalize` and `recover` are functions
--   from a record to a result with the next record. Store/Retention/Lifecycle is the part of
--   retention.rs that changes records, Store/Retention/Sweep the loop of its sweep,
--   Store/Configuration is configuration.rs.
--   Store/Backend is backend.rs: Replace holds the checks of a commit, Interface the trait
--   `SessionStore` as a record of operations and laws, Memory the store in memory, which fills it.
--   Store/Journal is the worker of an attached session (`SessionJournal::spawn` and `apply` in
--   runtime.rs), Store/Runtime the operations of `StoreRuntime`.
-- - Core (crates/whale-core): Core/Context is context.rs, Core/Session the limits and the closing
--   of calls in session.rs.
-- - Daemon (crates/whale-daemon): Daemon/Views is session_views.rs: Journal is the bounded journal of
--   a session's events (`retain_prepared`, `scrub_run`), Records the record that owns it (`prepare`,
--   `prepare_retire_run`, `replay`), Registry the
--   map of the records. A record publishes by applying the event to its own snapshot.
-- - Sdk (crates/whale-sdk-rust): Sdk/Subscription is the worker of session_views.rs that asks for
--   the pages of a replay (`replay_fixed_window`), Sdk/Follow its loop
--   over the live events (`run_subscription_worker`); its server is an argument, for which the
--   theorems take the daemon's `replay`.
-- - Base: the shared types, tests and lemmas. Tests: the theorems at concrete inputs.
--
-- How code corresponds to definitions:
-- - A method with `&mut self` returns the next record, or an error without one: its callers
--   discard a record whose method failed. A lock that is held throughout a call makes the call one
--   step; the tasks that share a store are a sequence of such steps, in any order.
-- - Machine integers are natural numbers; each `checked_add` and `saturating_add` is written out.
--   `temperature` is the bit pattern of its `f32`.
-- - The length of a serialized event and the text of a projection error are arguments of `publish`.
--   `prepare` and `install` of a publication or a retirement are one step, because the session's
--   lane is held from the one to the other.
-- - The loop over the pages is on fuel, one unit for each page: every page but the last advances the
--   cursor, so that one more than the distance to the high watermark is enough.
-- - What the worker of a subscription receives live is a list, with the server that answers at the
--   time of each arrival; a termination or a closed channel is a signal or an arrival of its own.
-- - The clock and fresh UUIDs are arguments.
-- - `serde_json`, `uuid` and `sha2` are the record `Env` in Store/Env, whose laws say what is
--   relied on; `V` is `serde_json::Value`. Error texts of the parsers are left out of messages.
-- - A `BTreeMap` is an association list in the order of its keys, a `HashSet` its members.
-- - `value_depth` recurs on fuel; its caller gives more than the nesting of the value.
--
-- - A panic of the source is named where it can occur: a start beyond a history, an index beyond
--   a list, a turn that is not stored.
--
-- Not modelled: the second version of the session projections, the other modules of the daemon and
-- the SDK, the provider adapters and the engine; channels, tasks and notifiers; the SQLite backend, whose contract is the interface; serialization.
pub mod Base
pub mod Protocol
pub mod Store
pub mod Core
pub mod Daemon
pub mod Sdk
pub mod Tests
