-- ===== src/Store/Backend/Replace.antt =====
-- `validate_create` and `validate_replace`: the changes of a record that a backend commits.
use whale_ai_sdk.Base.{
  ◌!=◌, ◌&&◌, ◌==◌, ◌||◌, ◌∷◌, Bool, Eq, List, String, [], bool_eq, checked_add, false,
  if◌then◌else◌, is_none, is_some, is_some_and, ltb, nat_eq, none, not, option_eq, some,
  starts_with, string_eq, ℕ,
}
use whale_ai_sdk.Base.TreeMap.{TreeMap, get}
use whale_ai_sdk.Protocol.Canonical.{item_eq}
use whale_ai_sdk.Protocol.Runs.{execution_eq, is_terminal, params_eq, snapshot_eq}
use whale_ai_sdk.Store.Env.{Env}
use whale_ai_sdk.Store.Error.{
  Result, conflict, err, invalid, ok, ok_or, reject, stale_lease, ◌>>=◌, ◌>>◌,
}
use whale_ai_sdk.Store.Retention.Lifecycle.{migrate_retention}
use whale_ai_sdk.Store.State.Queries.{find_call}
use whale_ai_sdk.Store.State.Validate.{option_ltb, validate}
use whale_ai_sdk.Store.Types.{SessionRecord, StoredCall, StoredRun}

module _ {V : Type 0} ⦃v : Eq V⦄ ⦃env : Env V⦄ where
  open env use {to_value}

  unfoldable pub validate_create : SessionRecord V → Result (Unit {0})
  validate_create r = do
    validate r
    reject (r.revision != 1) (invalid "Initial revision must be one")

  unfoldable pub is_legacy_tombstone_migration : SessionRecord V → SessionRecord V → Bool
  is_legacy_tombstone_migration old new =
      if old.schema_version != 1 || new.schema_version != 2 then false else elim new.created_at_ms [
        | none ↦ false
        | some now ↦
            to_value (record ((migrate_retention old now).0) { revision = new.revision })
            == to_value new
      ]

  unfoldable pub rewrites_timestamps : SessionRecord V → SessionRecord V → Bool
  rewrites_timestamps old new =
      old.schema_version == 2
      && (new.schema_version != 2
          || new.created_at_ms != old.created_at_ms
          || option_ltb new.updated_at_ms old.updated_at_ms)

  unfoldable pub run_changed : StoredRun V → StoredRun V → Bool
  run_changed run replacement =
      not (params_eq replacement.params run.params)
      || replacement.effective_options != run.effective_options
      || replacement.history_start != run.history_start
      || (is_terminal run.snapshot.status && replacement.snapshot != run.snapshot)

  unfoldable pub call_changed : StoredCall V → StoredCall V → Bool
  call_changed call updated =
      updated.result_item_id != call.result_item_id
      || updated.execution_id != call.execution_id
      || updated.step_id != call.step_id
      || updated.tool_name != call.tool_name
      || is_some_and call.intent (λ i. updated.intent != some i)
      || is_some_and call.outcome (λ i. updated.outcome != some i)
      || (call.committed && not updated.committed)

  unfoldable pub check_kept_calls : List (StoredCall V) → List (StoredCall V) → Result (Unit {0})
  unfolding call_changed
  check_kept_calls [] replacement = ok tt
  check_kept_calls (call ∷ rest) replacement = do
    updated ← ok_or (find_call call.call_id replacement) (invalid "Call record was removed")
    reject (call_changed call updated) (invalid "Committed tool outcome/identity was changed")
    check_kept_calls rest replacement

  unfoldable pub check_kept_runs : TreeMap (StoredRun V) → TreeMap (StoredRun V) → Result (Unit {0})
  unfolding check_kept_calls run_changed
  check_kept_runs [] new = ok tt
  check_kept_runs ((id, run) ∷ rest) new = do
    replacement ← ok_or (get new id) (invalid "Run record was removed")
    reject (run_changed run replacement) (invalid "Committed run identity/result was changed")
    check_kept_calls run.calls replacement.calls
    check_kept_runs rest new

  attaches : SessionRecord V → SessionRecord V → Result (Unit {0})
  attaches old new =
      if is_some new.owner
      then (if is_some old.owner then err stale_lease else do
        next ← ok_or (checked_add old.epoch 1) conflict
        reject (new.epoch != next) stale_lease)
      else ok tt

  -- The lease: an owner comes only to a detached record, with the next epoch.
  unfoldable pub check_lease : SessionRecord V → SessionRecord V → Result (Unit {0})
  unfolding attaches
  check_lease old new =
      if new.owner != old.owner || new.thread_id != old.thread_id
      then (do attaches old new; reject (is_none new.owner && new.epoch != old.epoch) stale_lease)
      else reject (new.epoch != old.epoch) stale_lease

  unfoldable pub check_contents : SessionRecord V → SessionRecord V → Result (Unit {0})
  unfolding check_kept_runs check_lease
  check_contents old new = if new.forgotten then ok tt else do
    reject
        (not (starts_with new.history old.history)
          || not (starts_with new.historical_thread_ids old.historical_thread_ids))
        (invalid "Committed history and attachment identities are append-only")
    check_kept_runs old.runs new.runs
    check_lease old new

  unfoldable pub validate_replace :
      SessionRecord V → String → ℕ → SessionRecord V → Result (Unit {0})
  unfolding check_contents
  validate_replace old id expected new = do
    validate new
    reject (old.revision != expected) conflict
    next ← ok_or (checked_add expected 1) conflict
    reject
        (new.recovery_id != id
          || new.secret_digest != old.secret_digest
          || new.revision != next
          || ltb new.epoch old.epoch
          || (old.forgotten && not (is_legacy_tombstone_migration old new)))
        conflict
    reject (rewrites_timestamps old new) (invalid "Retention timestamps cannot be rewritten")
    check_contents old new
