-- ===== src/Store/State/Validate.antt =====
-- `SessionRecord::validate`.
use whale_ai_sdk.Base.{
  Bool, Eq, List, Option, String, [], any, any_repeat, bool_eq, contains, false, is_none, is_some,
  is_some_and, length, list_eq, ltb, map, nat_eq, none, not, option_eq, some, string_eq, suc, true,
  ℕ, ◌!=◌, ◌&&◌, ◌==◌, ◌||◌, ◌∷◌,
}
use whale_ai_sdk.Base.Text.{all_hexdigits, byte_len, is_blank, is_empty}
use whale_ai_sdk.Base.TreeMap.{get, TreeMap, values}
use whale_ai_sdk.Protocol.Canonical.{CanonicalItem, id_of, item_eq, tool_call, tool_result}
use whale_ai_sdk.Protocol.Recovery.{ModelInputRecord, UnknownExecution}
use whale_ai_sdk.Protocol.Runs.{
  is_terminal, RunSnapshot, RunStatus, RunTurnResult, turn_status_eq, TurnStatus, usage_eq,
}
use whale_ai_sdk.Store.Env.{Env}
use whale_ai_sdk.Store.Error.{◌>>=◌, ◌>>◌, invalid, ok, reject, Result}
use whale_ai_sdk.Store.State.Queries.{active}
use whale_ai_sdk.Store.Types.{SessionRecord, StoredCall, StoredRun}

-- `Option`'s derived order: `None` is below every `Some`.
abbrev pub option_ltb : Option ℕ → Option ℕ → Bool
option_ltb a none = false
option_ltb none (some b) = true
option_ltb (some a) (some b) = ltb a b

-- The terminal status of a result that a run's status calls for.
unfoldable pub result_status : RunStatus → TurnStatus
result_status RunStatus.completed = TurnStatus.completed
result_status RunStatus.cancelled = TurnStatus.interrupted
result_status _ = TurnStatus.failed

-- The identities that the tool ledgers have used so far.
pub record Seen : Type 0 where
  pub call_ids : List String
  pub execution_ids : List String
  pub result_ids : List String

abbrev nothing_seen : Seen
nothing_seen = record { call_ids = []; execution_ids = []; result_ids = [] }

abbrev pub is_nil {ℓ} : {A : Type ℓ} → List A → Bool
is_nil [] = true
is_nil (x ∷ xs) = false

-- `iter().any(|id| id.is_empty() || !seen.insert(id))`.
unfoldable pub bad_identities : List String → List String → Bool
bad_identities seen [] = false
bad_identities seen (id ∷ ids) = is_empty id || contains seen id || bad_identities (id ∷ seen) ids

module _ {V : Type 0} ⦃v : Eq V⦄ ⦃env : Env V⦄ where
  open env use {as_object, is_uuid}

  abbrev pub is_object : V → Bool
  is_object v = is_some (as_object v)

  unfoldable pub malformed_record : SessionRecord V → Bool
  malformed_record r =
      not (r.schema_version == 1 || r.schema_version == 2)
      || not (is_uuid r.recovery_id)
      || (byte_len r.secret_digest != 64)
      || not (all_hexdigits r.secret_digest)
      || r.revision == 0
      || is_some r.owner != is_some r.thread_id
      || not (is_object r.configuration)
      || r.epoch == 0

  unfoldable pub malformed_retention : SessionRecord V → Bool
  malformed_retention r =
      r.schema_version == 2
      && (is_none r.created_at_ms
          || option_ltb r.updated_at_ms r.created_at_ms
          || (is_some r.owner && is_some r.detached_since_ms)
          || (not r.forgotten && is_none r.owner && is_none r.detached_since_ms)
          || r.forgotten != is_some r.retired_at_ms
          || r.forgotten != is_some r.retirement_reason)

  unfoldable pub malformed_tombstone : SessionRecord V → Bool
  malformed_tombstone r =
      r.forgotten
      && (is_some r.owner
          || not (is_nil r.history)
          || not (is_nil r.runs)
          || not (is_nil r.unknown_executions))

  unfoldable pub malformed_attachment : SessionRecord V → Bool
  malformed_attachment r =
      is_some_and r.owner is_blank
      || is_some_and r.thread_id (λ t. is_blank t || not (contains r.historical_thread_ids t))
      || (active r && is_none r.owner)

  unfoldable pub malformed_run : List (CanonicalItem V) → String → StoredRun V → Bool
  malformed_run history id run =
      id != run.params.turn_id
      || id != run.snapshot.turn_id
      || run.params.thread_id != run.snapshot.thread_id
      || ltb (length history) run.history_start
      || (is_terminal run.snapshot.status && is_none run.snapshot.result)

  -- One entry of the model input ledger at its index; the step ids of the run so far.
  unfoldable pub bad_step : ℕ → ℕ → List String → ModelInputRecord V → Bool
  bad_step revision index steps step =
      step.step_index != index
      || is_empty step.step_id
      || contains steps step.step_id
      || not (is_object step.request)
      || step.completed != is_some step.usage
      || ltb revision step.history_revision

  unfoldable pub check_steps :
      ℕ → ℕ → List String → List (ModelInputRecord V) → Result (List String)
  unfolding bad_step
  check_steps revision index steps [] = ok steps
  check_steps revision index steps (step ∷ rest) = do
    reject (bad_step revision index steps step) (invalid "Malformed model input ledger")
    check_steps revision (suc index) (step.step_id ∷ steps) rest

  -- The history holds the tool call that the ledger entry is for.
  abbrev pub is_call_of : StoredCall V → CanonicalItem V → Bool
  is_call_of call (tool_call id call_id namespace name arguments raw) =
      call_id == call.call_id && name == call.tool_name
  is_call_of call _ = false

  abbrev pub is_result_of : StoredCall V → CanonicalItem V → Bool
  is_result_of call (tool_result id call_id output is_error) =
      id == call.result_item_id && call_id == call.call_id
  is_result_of call _ = false

  unfoldable pub bad_call_identity :
      List (CanonicalItem V) → List String → Seen → StoredCall V → Bool
  bad_call_identity history steps seen call =
      is_empty call.call_id
      || contains seen.call_ids call.call_id
      || contains seen.execution_ids call.execution_id
      || contains seen.result_ids call.result_item_id
      || not (contains steps call.step_id)
      || not (any (is_call_of call) history)

  unfoldable pub bad_call_state : StoredCall V → Bool
  bad_call_state call =
      is_some_and call.intent (λ intent. intent.call_id != call.call_id)
      || (call.committed && is_none call.outcome)

  unfoldable pub bad_call_outcome : List (CanonicalItem V) → StoredCall V → Bool
  bad_call_outcome history call = is_some_and call.outcome (λ outcome.
      not (is_result_of call outcome) || (call.committed && not (contains history outcome)))

  unfoldable pub check_calls :
      List (CanonicalItem V) → List String → Seen → List (StoredCall V) → Result Seen
  unfolding bad_call_identity bad_call_state bad_call_outcome
  check_calls history steps seen [] = ok seen
  check_calls history steps seen (call ∷ rest) = do
    reject (bad_call_identity history steps seen call) (invalid "Malformed tool ledger identity")
    reject (bad_call_state call) (invalid "Malformed tool ledger state")
    reject (bad_call_outcome history call) (invalid "Malformed stored tool result")
    check_calls history steps
        (record {
          call_ids = call.call_id ∷ seen.call_ids;
          execution_ids = call.execution_id ∷ seen.execution_ids;
          result_ids = call.result_item_id ∷ seen.result_ids;
        })
        rest

  unfoldable pub bad_result : RunSnapshot V → RunTurnResult V → Bool
  unfolding result_status
  bad_result s result =
      result.thread_id != s.thread_id
      || result.turn_id != s.turn_id
      || result.status != result_status s.status
      || result.items != s.items
      || result.usage != s.usage

  unfoldable pub check_runs : SessionRecord V → Seen → List (StoredRun V) → Result (Unit {0})
  unfolding check_steps check_calls bad_result
  check_runs r seen [] = ok tt
  check_runs r seen (run ∷ rest) = do
    steps ← check_steps r.revision 0 [] run.model_inputs
    seen' ← check_calls r.history steps seen run.calls
    reject (is_some_and run.snapshot.result (bad_result run.snapshot))
        (invalid "Malformed terminal result")
    check_runs r seen' rest

  abbrev is_unknown_call : UnknownExecution V → StoredCall V → Bool
  is_unknown_call u call =
      call.execution_id == u.execution_id
      && call.call_id == u.call_id
      && is_some call.intent
      && is_some call.outcome

  unfoldable pub bad_unknowns :
      TreeMap (StoredRun V) → List String → List (UnknownExecution V) → Bool
  bad_unknowns runs seen [] = false
  bad_unknowns runs seen (u ∷ rest) =
      contains seen u.execution_id
      || not (is_some_and (get runs u.turn_id) (λ run. any (is_unknown_call u) run.calls))
      || bad_unknowns runs (u.execution_id ∷ seen) rest

  unfoldable pub validate : SessionRecord V → Result (Unit {0})
  unfolding check_runs bad_unknowns
  validate r = do
    reject (malformed_record r) (invalid "Malformed session record")
    reject (malformed_retention r) (invalid "Malformed retention metadata")
    reject (malformed_tombstone r) (invalid "Malformed tombstone")
    reject (malformed_attachment r) (invalid "Malformed live attachment")
    reject (bad_identities [] r.historical_thread_ids) (invalid "Duplicate attachment identity")
    reject (any_repeat [] (map id_of r.history)) (invalid "Duplicate history item ID")
    reject (any (λ e. malformed_run r.history e.0 e.1) r.runs) (invalid "Malformed run record")
    check_runs r nothing_seen (values r.runs)
    reject (bad_unknowns r.runs [] r.unknown_executions) (invalid "Malformed unknown execution")
