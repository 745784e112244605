-- ===== src/Store/Retention/Lifecycle.antt =====
-- The timestamps of a record, its migration to schema 2 and its retirement
-- (crates/whale-store/src/retention.rs). The clock is the argument `now`.
use whale_ai_sdk.Base.{
  ◌!=◌, ◌&&◌, ◌||◌, Bool, Eq, Option, String, [], bool_eq, checked_add, false, if◌then◌else◌,
  is_none, is_some, max, nat_eq, none, not, some, true, ℕ,
}
use whale_ai_sdk.Protocol.Limits.{serialized_bytes}
use whale_ai_sdk.Store.Env.{Env}
use whale_ai_sdk.Store.Error.{
  Result, active, conflict, invalid, ok, ok_or, reject, unknown_executions, ◌>>=◌, ◌>>◌,
}
use whale_ai_sdk.Store.State.Queries
use whale_ai_sdk.Store.State.Queries.{or_invalid, unresolved}
use whale_ai_sdk.Store.State.Validate.{validate}
use whale_ai_sdk.Store.Types.{SessionRecord}

pub record RetentionMetadata : Type 0 where
  pub recovery_id : String
  pub revision : ℕ
  pub detached_since_ms : Option ℕ
  pub forgotten : Bool
  pub protected_active : Bool
  pub protected_unknown : Bool
  pub payload_bytes : ℕ

abbrev later : ℕ → Option ℕ → ℕ
later now none = now
later now (some before) = max now before

module _ {V : Type 0} where
  unfoldable pub touch : SessionRecord V → ℕ → SessionRecord V
  touch r now = record r { updated_at_ms = some (later now r.updated_at_ms) }

  unfoldable pub mark_detached : SessionRecord V → ℕ → SessionRecord V
  unfolding touch
  mark_detached r now = let t = touch r now in record t { detached_since_ms = t.updated_at_ms }

  -- The migrated record, and whether it was one of schema 1.
  unfoldable pub migrate_retention : SessionRecord V → ℕ → SessionRecord V × Bool
  migrate_retention r now = if r.schema_version != 1 then (r, false) else (
    record r {
      schema_version = 2;
      created_at_ms = some now;
      updated_at_ms = some now;
      detached_since_ms = if is_none r.owner && not r.forgotten then some now else none;
      retired_at_ms = if r.forgotten then some now else none;
      retirement_reason = if r.forgotten then some "legacy_forget" else none;
    },
    true,
  )

module _ {V : Type 0} ⦃v : Eq V⦄ ⦃env : Env V⦄ where
  open env use {object, write_record}

  unfoldable pub retire : SessionRecord V → ℕ → String → SessionRecord V
  unfolding touch
  retire r now reason =
      let t = touch r now in
      record t {
        forgotten = true;
        retired_at_ms = t.updated_at_ms;
        retirement_reason = some reason;
        detached_since_ms = none;
        configuration = object [];
        history = [];
        runs = [];
        unknown_executions = [];
        historical_thread_ids = [];
      }

  payload : SessionRecord V → Result ℕ
  payload r = if r.forgotten then ok 0 else or_invalid (serialized_bytes (write_record r))

  unfoldable pub retention_metadata : SessionRecord V → Result RetentionMetadata
  unfolding payload
  retention_metadata r = do
    bytes ← payload r
    ok (record {
      recovery_id = r.recovery_id;
      revision = r.revision;
      detached_since_ms = r.detached_since_ms;
      forgotten = r.forgotten;
      protected_active = is_some r.owner || Queries.active r;
      protected_unknown = unresolved r;
      payload_bytes = bytes;
    })

  unfoldable pub retired : SessionRecord V → ℕ → ℕ → String → Result (Option (SessionRecord V))
  unfolding retire
  retired r expected now reason = do
    reject (is_some r.owner || Queries.active r) active
    reject (unresolved r) unknown_executions
    reject (r.schema_version != 2 || is_none r.detached_since_ms)
        (invalid "Retention metadata requires migration")
    next ← ok_or (checked_add expected 1) conflict
    ok (some (record (retire r now reason) { revision = next }))

  -- The tombstone that replaces a record; `none` for a record that is one already.
  unfoldable pub retirement_replacement :
      SessionRecord V → ℕ → ℕ → String → Result (Option (SessionRecord V))
  unfolding retired
  retirement_replacement r expected now reason = do
    validate r
    reject (r.revision != expected) conflict
    if r.forgotten then ok none else retired r expected now reason
