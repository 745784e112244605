-- ===== src/Tests/Stores.antt =====
-- The store and its journal, at concrete inputs.

use whale_ai_sdk.Base.{
  ◌+◌, arith, inl, List, String, [], any_repeat, bool_eq, contains, false, list_eq, nat_eq, none,
  option_eq, pair_eq, refl, some, starts_with, string_dec, string_eq, true, ℕ, ◌∷◌, ◌≡◌, ◌≢◌,
}
use native.Mathlib.Decide.{ℕ_discrete}
use mathlib.Core.List.{filter_map}
use mathlib.Core.Option.{Option-elim}
use whale_ai_sdk.Base.Text.{all_hexdigits, is_blank, is_empty}
use whale_ai_sdk.Base.TreeMap.{get, insert, remove}
use whale_ai_sdk.Protocol.Canonical.{id_of, item_eq}
use whale_ai_sdk.Protocol.Limits.{
  StoreRetentionPolicy, count_writes, limits_validate, serialized_bytes,
}
use whale_ai_sdk.Protocol.Runs.{
  execution_eq, f32_eq, is_nan, is_terminal, options_eq, params_eq, run_status_eq, snapshot_eq,
  temperature_eq, turn_status_eq, usage_eq,
}
use whale_ai_sdk.Protocol.Recovery.{defaults_validate, key_validate}
use whale_ai_sdk.Store.Runtime.{
  configuration_matches, lease_of, migrated_configuration, new_record, prepare_attach,
  prepare_forget,
}
use whale_ai_sdk.Store.State.Queries.{active, configured_limits, history_bytes, unresolved}
use whale_ai_sdk.Store.State.Begin.{
  accept, admission, bad_acceptance, begin, begin_new, history_limit,
}
use whale_ai_sdk.Store.State.Mutate.{
  FreshIds, apply_step, bad_model_item, bad_step_order, batch_step, budget, canonical_result,
  dispatch_step, finish_step, input_step, item_step, mutate, outcome_step, record_call, settle,
}
use whale_ai_sdk.Store.State.Usage.{add_usage, checked_usage, sum_usage}
use whale_ai_sdk.Store.State.Finalize.{
  close_call, close_calls, closing_items, closing_outcome, fail_runs, finalize, judge, recover,
  terminal, unknowns_of,
}
use whale_ai_sdk.Store.State.Validate.{
  bad_call_identity, bad_call_outcome, bad_call_state, bad_identities, bad_result, bad_step,
  bad_unknowns, check_calls, check_runs, check_steps, malformed_attachment, malformed_record,
  malformed_retention, malformed_run, malformed_tombstone, result_status, validate,
}
use whale_ai_sdk.Tests.Json.{Json, json_dec, json_env, json_eq}
use whale_ai_sdk.Store.Backend.Commits.{
  AllValid, Later, StoreCall, creates, exchanges, perform, perform_all, perform_all-AllValid,
  perform_all-Later,
}
use whale_ai_sdk.Store.Backend.Replace.{
  call_changed, check_contents, check_kept_calls, check_kept_runs, check_lease,
  is_legacy_tombstone_migration, rewrites_timestamps, run_changed, validate_create,
  validate_replace,
}
use whale_ai_sdk.Store.Backend.Memory.{Records, compare_exchange, create, load, memory_store}
use whale_ai_sdk.Store.Journal.{
  Lease, change, committed_reply, exchange, handle, handle_loaded, is_stale,
}
use whale_ai_sdk.Store.Journal.Apply.{
  Action, acknowledge, apply, begins, detaches, flag, parse_versioned_configuration, same_set,
}
use whale_ai_sdk.Store.Retention.Lifecycle.{RetentionMetadata, migrate_retention, retire, touch}
use whale_ai_sdk.Store.Error.{err, ok, stale_lease}
use whale_ai_sdk.Store.Types.{SessionRecord, dispatch_intent}
use whale_ai_sdk.Store.Backend.Dispatch.{dispatch_once_stored}
use whale_ai_sdk.Store.Backend.Extends.{Extends, Keeps}
use whale_ai_sdk.Store.Backend.Accepted.{validate_replace-Extends}
use whale_ai_sdk.Store.Journal.Fencing.{Committed, handle-Committed}
use whale_ai_sdk.Store.Journal.Poisoned.{AllRefused}
use whale_ai_sdk.Store.Journal.Fenced.{
  Turn, command, elsewhere, interleave, interleave_fenced, others,
}
use whale_ai_sdk.Store.Journal.Actions.{apply-Keeps}
use whale_ai_sdk.Store.Journal.Acknowledged.{Acknowledged, acknowledge-Acknowledged}
use whale_ai_sdk.Tests.Session.{
  begun, created, dispatched, execution, finished, fresh, key, params, running,
}
use whale_ai_sdk.Store.Runtime.Forgotten.{Forgotten, prepare_forget-Forgotten}
use whale_ai_sdk.Store.Runtime.Attached.{Attached, prepare_attach-Attached}
use whale_ai_sdk.Store.Retention.Sweep.{Sweeping, sweep_rows}
use whale_ai_sdk.Store.Retention.Protected.{is_used, sweep_rows-kept}

abbrev id : String
id = key.recovery_id

-- The session with its run begun, as it is stored next.
abbrev replaced : SessionRecord Json
replaced = record begun { revision = 2; updated_at_ms = some 6 }

abbrev store : Records Json
store = (id, created) ∷ []

abbrev lease : Lease
lease = lease_of created

-- The lease of a worker that a later attachment has fenced off.
abbrev stale : Lease
stale = record lease { epoch = 0 }

abbrev begins_run : Action Json
begins_run = begins params running Json.nil

abbrev calls : List (StoreCall Json)
calls = creates created ∷ exchanges id 1 replaced ∷ exchanges id 1 replaced ∷ []

abbrev commands : List (FreshIds × ℕ × Action Json)
commands = (fresh, 6, begins_run) ∷ (fresh, 7, detaches) ∷ []

-- A session that knows of an execution with an unknown result.
abbrev uncertain : SessionRecord Json
uncertain = record created {
  unknown_executions =
      record {
        execution_id = "execution";
        turn_id = "turn";
        call_id = "call";
        tool_name = "tool";
        original_arguments = none;
        arguments = none;
        reason = "unknown";
        acknowledged = false;
      }
      ∷ [];
}

abbrev certain : SessionRecord Json
certain = record uncertain {
  unknown_executions =
      record {
        execution_id = "execution";
        turn_id = "turn";
        call_id = "call";
        tool_name = "tool";
        original_arguments = none;
        arguments = none;
        reason = "unknown";
        acknowledged = true;
      }
      ∷ [];
}

-- A policy that keeps at most one session, and two outdated rows.
abbrev policy : StoreRetentionPolicy
policy = record {
  detached_ttl_ms = some 1;
  max_retained_sessions = some 1;
  max_retained_payload_bytes = none;
}

abbrev row : RetentionMetadata
row = record {
  recovery_id = id;
  revision = 1;
  detached_since_ms = some 1;
  forgotten = false;
  protected_active = false;
  protected_unknown = false;
  payload_bytes = 10;
}

abbrev sweeping : Sweeping (Records Json)
sweeping = record { store = store; sessions = 2; bytes = 20; retired = 0 }

-- The session without its host, and attached again.
abbrev left : SessionRecord Json
left = record created { owner = none; thread_id = none; detached_since_ms = some 5 }

abbrev attached : SessionRecord Json
attached = record created {
  updated_at_ms = some 9;
  owner = some "next";
  thread_id = some "second";
  historical_thread_ids = "thread" ∷ "second" ∷ [];
  epoch = 2;
  revision = 2;
}

-- Its tombstone.
abbrev gone : SessionRecord Json
gone = record (retire left 9 "explicit_forget") { revision = 2 }

-- The session with its call dispatched, as it is stored, and as it is stored next.
abbrev sent : Records Json
sent = (id, dispatched) ∷ []

abbrev later : SessionRecord Json
later = record dispatched { revision = 2; updated_at_ms = some 8 }

abbrev touches : List (StoreCall Json)
touches = exchanges id 1 later ∷ []

record Facts : Type 0 where
  pub accepts : validate_replace created id 1 replaced ≡ ok tt
  pub applies : apply fresh 6 created begins_run ≡ ok (begun, flag true)
  pub replies : (handle fresh 6 store lease none begins_run).reply ≡ ok (flag true)
  pub loads : load store id ≡ ok (some created)
  pub acknowledged : acknowledge uncertain 1 ("execution" ∷ []) ≡ ok certain
  pub attaches : prepare_attach 9 left 1 Json.nil "next" "second" ≡ ok attached
  pub forgets : prepare_forget 9 left 1 ≡ ok (some gone)
  pub sends :
      mutate finished fresh "turn" (dispatch_intent "call" execution) ≡ ok (dispatched, none)
  pub stores : get sent id ≡ some dispatched
  pub advances : get (perform_all sent touches) id ≡ some later
  pub present : later.forgotten ≡ false
  pub used : is_used created ≡ true
  pub holds : get store id ≡ some created

facts : Facts
unfolding any_repeat bool_eq contains list_eq string_dec string_eq option_eq nat_eq pair_eq
    starts_with ℕ_discrete filter_map Option-elim is_empty is_blank all_hexdigits get insert remove
    id_of item_eq limits_validate count_writes serialized_bytes f32_eq is_nan is_terminal options_eq
    params_eq temperature_eq run_status_eq turn_status_eq usage_eq execution_eq snapshot_eq
    key_validate defaults_validate new_record prepare_forget prepare_attach configuration_matches
    migrated_configuration active unresolved configured_limits history_bytes begin begin_new
    bad_acceptance admission accept history_limit mutate budget apply_step bad_model_item
    bad_step_order batch_step canonical_result dispatch_step finish_step input_step item_step
    outcome_step record_call settle add_usage checked_usage sum_usage finalize recover fail_runs
    close_calls closing_outcome close_call unknowns_of closing_items judge terminal validate
    check_runs bad_unknowns result_status bad_identities malformed_record malformed_retention
    malformed_tombstone malformed_attachment malformed_run bad_step check_steps bad_call_identity
    bad_call_state bad_call_outcome check_calls bad_result json_env json_eq json_dec perform
    perform_all validate_replace validate_create is_legacy_tombstone_migration rewrites_timestamps
    run_changed call_changed check_kept_calls check_kept_runs check_lease check_contents
    memory_store compare_exchange create load handle is_stale handle_loaded change exchange
    committed_reply apply acknowledge same_set parse_versioned_configuration migrate_retention touch
    retire is_used
facts = record {
  accepts = refl;
  applies = refl;
  replies = refl;
  loads = refl;
  acknowledged = refl;
  attaches = refl;
  forgets = refl;
  sends = refl;
  stores = refl;
  advances = refl;
  present = refl;
  used = refl;
  holds = refl;
}

none_stored : AllValid {V = Json} []
unfolding get
none_stored id r e = cc

perform_all-AllValid_example : AllValid (perform_all [] calls)
perform_all-AllValid_example = perform_all-AllValid [] calls none_stored

perform_all-Later_example : Later created (perform_all store calls) id
perform_all-Later_example = perform_all-Later store calls id created facts.holds

validate_replace-Extends_example :
    Extends created replaced
    × (created.revision ≡ 1)
    × (replaced.revision ≡ created.revision + 1)
    × (replaced.recovery_id ≡ id)
    × (validate replaced ≡ ok tt)
validate_replace-Extends_example = validate_replace-Extends created replaced id 1 facts.accepts

apply-Keeps_example : Keeps created begun
apply-Keeps_example = apply-Keeps fresh 6 created begins_run begun (flag true) facts.applies

handle-Committed_example :
    Committed fresh 6 store lease begins_run (handle fresh 6 store lease none begins_run)
handle-Committed_example =
    handle-Committed fresh 6 store lease none begins_run (flag true) refl facts.replies

abbrev turns : List (Turn Json)
turns =
    command fresh 6 begins_run ∷ elsewhere (exchanges id 1 replaced) ∷ command fresh 7 detaches ∷ []

interleave_fenced_example :
    ((interleave store stale none turns).store ≡ perform_all store (others turns))
    × ((interleave store stale none turns).poison ≡ none)
    × AllRefused (err stale_lease) (interleave store stale none turns).replies
unfolding new_record
interleave_fenced_example =
    interleave_fenced store stale turns created facts.holds (inl (omega arith))

sweep_rows-kept_example :
    get (sweep_rows Json policy 9 (row ∷ row ∷ []) sweeping).0.store id ≡ some created
sweep_rows-kept_example =
    sweep_rows-kept policy 9 (row ∷ row ∷ []) sweeping id created facts.holds facts.used

prepare_attach-Attached_example : Attached left 1 "next" "second" attached
prepare_attach-Attached_example =
    prepare_attach-Attached 9 left 1 Json.nil "next" "second" attached facts.attaches

prepare_forget-Forgotten_example : Forgotten left 1 gone
prepare_forget-Forgotten_example = prepare_forget-Forgotten 9 left 1 gone facts.forgets

dispatch_once_stored_example :
    mutate later fresh "turn" (dispatch_intent "call" execution) ≢ ok (later, none)
dispatch_once_stored_example =
    dispatch_once_stored finished dispatched later later fresh fresh "turn" "call" execution
      execution none none sent touches id facts.sends facts.stores facts.advances facts.present

acknowledge-Acknowledged_example : Acknowledged uncertain 1 ("execution" ∷ []) certain
acknowledge-Acknowledged_example =
    acknowledge-Acknowledged uncertain 1 ("execution" ∷ []) certain facts.acknowledged
