-- ===== src/Store/State/Mutate.antt =====
-- `SessionRecord::mutate`: one step of a live run. The identities that the source draws from
-- `Uuid::new_v4` are the argument `fresh`.
use mathlib.Core.List.{filter_map}
use whale_ai_sdk.Base.{
  ◌!=◌, ◌&&◌, ◌++◌, ◌==◌, ◌||◌, ◌∷◌, Bool, Eq, List, Option, String, [], any, bool_eq, drop, false,
  if◌then◌else◌, is_none, is_some, is_some_and, last, length, list_eq, ltb, map, nat_eq, none, not,
  option_eq, some, string_eq, true, ℕ,
}
use whale_ai_sdk.Base.Text.{is_empty}
use whale_ai_sdk.Base.TreeMap.{get, insert}
use whale_ai_sdk.Protocol.Canonical.{
  CanonicalItem, id_of, item_eq, tool_call, tool_result, user_message,
}
use whale_ai_sdk.Protocol.Limits.{SessionLimits, serialized_bytes}
use whale_ai_sdk.Protocol.Recovery.{ModelInputRecord}
use whale_ai_sdk.Protocol.Runs.{ToolExecutionRecord, UsageMetrics, execution_eq, is_terminal}
use whale_ai_sdk.Store.Env.{Env}
use whale_ai_sdk.Store.Error.{
  Result, conflict, err, invalid, limit_exceeded, not_found, ok, ok_or, reject, ◌>>=◌, ◌>>◌,
}
use whale_ai_sdk.Store.State.Begin.{history_limit}
use whale_ai_sdk.Store.State.Queries.{configured_limits, find_call, or_invalid}
use whale_ai_sdk.Store.State.Usage.{checked_usage}
use whale_ai_sdk.Store.State.Validate.{is_object}
use whale_ai_sdk.Store.Types.{
  RunMutation, SessionRecord, StoredCall, StoredRun, dispatch_intent, model_input, model_item,
  model_step_finished, tool_batch, tool_outcome,
}

-- The two identities that a new ledger entry draws.
pub record FreshIds : Type 0 where
  pub result_item_id : String
  pub execution_id : String

module _ {V : Type 0} where
  -- The last element replaced: `model_inputs.last_mut()`.
  abbrev pub set_last : List (ModelInputRecord V) → ModelInputRecord V → List (ModelInputRecord V)
  set_last [] step = []
  set_last (x ∷ []) step = step ∷ []
  set_last (x ∷ y ∷ rest) step = x ∷ set_last (y ∷ rest) step

  -- The first call with the id changed: `calls.iter_mut().find(..)`.
  abbrev pub update_call :
      String → (StoredCall V → StoredCall V) → List (StoredCall V) → List (StoredCall V)
  update_call id f [] = []
  update_call id f (c ∷ rest) = if c.call_id == id then f c ∷ rest else c ∷ update_call id f rest

  -- The model step of a call is complete.
  abbrev pub step_completed : StoredRun V → String → Bool
  step_completed run step_id =
      any (λ (s : ModelInputRecord V). s.step_id == step_id && s.completed) run.model_inputs

  abbrev pub usages : List (ModelInputRecord V) → List UsageMetrics
  usages = filter_map (λ s. s.usage)

  abbrev pub new_call : FreshIds → String → String → String → StoredCall V
  new_call fresh step_id call_id name = record {
    call_id = call_id;
    step_id = step_id;
    tool_name = name;
    result_item_id = fresh.result_item_id;
    execution_id = fresh.execution_id;
    intent = none;
    outcome = none;
    committed = false;
  }

  abbrev pub uncommitted : List (StoredCall V) → List (StoredCall V)
  uncommitted [] = []
  uncommitted (c ∷ rest) =
      let others = uncommitted rest in if c.committed then others else c ∷ others

  -- The outcomes of the uncommitted calls in the order of the ledger. A call with no outcome
  -- cannot occur behind the guard of `tool_batch`, where the source would `unwrap` it.
  abbrev pub batch_outcomes : List (StoredCall V) → List (CanonicalItem V)
  batch_outcomes [] = []
  batch_outcomes (c ∷ rest) =
      let others = batch_outcomes rest in
      if c.committed then others else elim c.outcome [ none ↦ others | some item ↦ item ∷ others ]

  abbrev pub commit_all : List (StoredCall V) → List (StoredCall V)
  commit_all = map (λ (c : StoredCall V). record c { committed = true })

-- What an operation changes: the history, the run, and the item that it returns.
pub record Step (V : Type 0) : Type 0 where
  pub history : List (CanonicalItem V)
  pub run : StoredRun V
  pub returned : Option (CanonicalItem V)

module _ {V : Type 0} ⦃v : Eq V⦄ ⦃env : Env V⦄ where
  open env use {write_value}

  unfoldable pub bad_step_order : StoredRun V → String → ℕ → V → Bool
  bad_step_order run step_id step_index request =
      is_empty step_id
      || step_index != length run.model_inputs
      || not (is_object request)
      || is_some_and (last run.model_inputs) (λ s. not s.completed)
      || any (λ (c : StoredCall V). not c.committed) run.calls
      || any (λ (s : ModelInputRecord V). s.step_id == step_id) run.model_inputs

  unfoldable pub input_step : SessionRecord V → StoredRun V → String → ℕ → V → Result (Step V)
  unfolding bad_step_order
  input_step r run step_id step_index request = do
    reject (bad_step_order run step_id step_index request) (invalid "Invalid model step order")
    ok (record {
      history = r.history;
      run = record run {
        model_inputs =
            run.model_inputs
            ++ record {
              step_id = step_id;
              step_index = step_index;
              history_revision = r.revision;
              request = request;
              completed = false;
              usage = none;
            }
              ∷ [];
      };
      returned = none;
    })

  -- `UserMessage` and `ToolResult` are not items of a model.
  abbrev pub not_of_model : CanonicalItem V → Bool
  not_of_model (user_message id content) = true
  not_of_model (tool_result id call_id output is_error) = true
  not_of_model _ = false

  unfoldable pub bad_model_item :
      SessionRecord V → ModelInputRecord V → String → CanonicalItem V → Bool
  bad_model_item r step step_id item =
      step.step_id != step_id
      || step.completed
      || not_of_model item
      || any (λ i. id_of i == id_of item) r.history

  abbrev pub is_call_id : String → CanonicalItem V → Bool
  is_call_id call_id (tool_call id old namespace name arguments raw) = old == call_id
  is_call_id call_id _ = false

  -- A tool call enters the ledger with fresh identities.
  unfoldable pub record_call :
      SessionRecord V → FreshIds → StoredRun V → String → CanonicalItem V → Result (StoredRun V)
  record_call r fresh run step_id (tool_call id call_id namespace name arguments raw) = do
    reject (is_empty call_id || any (is_call_id call_id) r.history)
        (invalid "Duplicate model call ID")
    ok (record run { calls = run.calls ++ new_call fresh step_id call_id name ∷ [] })
  record_call r fresh run step_id _ = ok run

  unfoldable pub item_step :
      SessionRecord V → FreshIds → StoredRun V → String → CanonicalItem V → Result (Step V)
  unfolding record_call bad_model_item
  item_step r fresh run step_id item = do
    step ← ok_or (last run.model_inputs) (invalid "Missing model input")
    reject (bad_model_item r step step_id item) (invalid "Invalid model item")
    run' ← record_call r fresh run step_id item
    ok (record { history = r.history ++ item ∷ []; run = run'; returned = none })

  unfoldable pub finish_step :
      SessionRecord V → StoredRun V → String → UsageMetrics → Result (Step V)
  finish_step r run step_id usage = do
    total ← checked_usage (usages run.model_inputs ++ usage ∷ [])
    step ← ok_or (last run.model_inputs) (invalid "Missing model input")
    reject (step.step_id != step_id || step.completed) (invalid "Invalid model completion")
    ok (record {
      history = r.history;
      run = record run {
        model_inputs =
            set_last run.model_inputs (record step { completed = true; usage = some usage });
      };
      returned = none;
    })

  unfoldable pub dispatch_step :
      SessionRecord V → StoredRun V → String → ToolExecutionRecord V → Result (Step V)
  dispatch_step r run call_id execution = do
    call ← ok_or (find_call call_id run.calls) (invalid "Unknown tool call")
    reject
        (execution.call_id != call_id
          || is_some call.intent
          || is_some call.outcome
          || not (step_completed run call.step_id))
        (invalid "Tool dispatch cannot be repeated or precede step completion")
    ok (record {
      history = r.history;
      run = record run {
        calls = update_call call_id (λ c. record c { intent = some execution }) run.calls;
      };
      returned = none;
    })

  -- The stored form of a result: under the identity that the ledger drew.
  unfoldable pub canonical_result :
      StoredCall V → String → CanonicalItem V → Result (CanonicalItem V)
  canonical_result call call_id (tool_result id result_call output is_error) = do
    reject (result_call != call_id) (invalid "Wrong outcome identity")
    ok (tool_result call.result_item_id call_id output is_error)
  canonical_result call call_id _ = err (invalid "Expected tool result")

  unfoldable pub outcome_step :
      SessionRecord V → StoredRun V → String → CanonicalItem V → Result (Step V)
  unfolding canonical_result
  outcome_step r run call_id result = do
    call ← ok_or (find_call call_id run.calls) (invalid "Unknown tool call")
    reject (not (step_completed run call.step_id))
        (invalid "Tool outcome precedes model step completion")
    item ← canonical_result call call_id result
    reject (is_some_and call.outcome (λ old. old != item)) conflict
    ok (record {
      history = r.history;
      run = record run {
        calls = update_call call_id (λ c. record c { outcome = some item }) run.calls;
      };
      returned = some item;
    })

  unfoldable pub batch_step : SessionRecord V → StoredRun V → List String → Result (Step V)
  batch_step r run call_ids = do
    let calls = uncommitted run.calls
    reject
        (map (λ (c : StoredCall V). c.call_id) calls != call_ids
          || any (λ (c : StoredCall V). is_none c.outcome) calls)
        (invalid "Incomplete or out-of-order tool batch")
    ok (record {
      history = r.history ++ batch_outcomes run.calls;
      run = record run { calls = commit_all run.calls };
      returned = none;
    })

  unfoldable pub apply_step :
      SessionRecord V → FreshIds → StoredRun V → RunMutation V → Result (Step V)
  unfolding input_step item_step finish_step dispatch_step outcome_step batch_step
  apply_step r fresh run (model_input step_id step_index request) =
      input_step r run step_id step_index request
  apply_step r fresh run (model_item step_id item) = item_step r fresh run step_id item
  apply_step r fresh run (model_step_finished step_id usage) = finish_step r run step_id usage
  apply_step r fresh run (dispatch_intent call_id execution) = dispatch_step r run call_id execution
  apply_step r fresh run (tool_outcome call_id result) = outcome_step r run call_id result
  apply_step r fresh run (tool_batch call_ids) = batch_step r run call_ids

  request_limit : Option ℕ → V → Result (Unit {0})
  request_limit none request = ok tt
  request_limit (some limit) request = do
    size ← or_invalid (serialized_bytes (write_value request))
    reject (ltb limit size) (limit_exceeded "max_model_request_bytes")

  -- The budgets that are checked before a model request, and the history's before a dispatch.
  input_budget : SessionRecord V → Option SessionLimits → V → Result (Unit {0})
  unfolding request_limit
  input_budget r none request = ok tt
  input_budget r (some limits) request = do
    history_limit r.history [] limits.max_history_bytes
    request_limit limits.max_model_request_bytes request

  dispatch_budget : SessionRecord V → Option SessionLimits → Result (Unit {0})
  dispatch_budget r none = ok tt
  dispatch_budget r (some limits) = history_limit r.history [] limits.max_history_bytes

  unfoldable pub budget : SessionRecord V → RunMutation V → Result (Unit {0})
  unfolding input_budget dispatch_budget
  budget r (model_input step_id step_index request) = do
    limits ← configured_limits r.configuration
    input_budget r limits request
  budget r (dispatch_intent call_id execution) = do
    limits ← configured_limits r.configuration
    dispatch_budget r limits
  budget r _ = ok tt

  -- The record with the changed run, whose snapshot shows the history from the run's start.
  unfoldable pub settle : SessionRecord V → String → Step V → SessionRecord V
  settle r turn s = record r {
    history = s.history;
    runs = insert r.runs turn (record (s.run) {
      snapshot = record (s.run.snapshot) { items = drop s.run.history_start s.history };
    });
  }

  unfoldable pub mutate :
      SessionRecord V
      → FreshIds
      → String
      → RunMutation V
      → Result (SessionRecord V × Option (CanonicalItem V))
  mutate r fresh turn op = do
    budget r op
    run ← ok_or (get r.runs turn) not_found
    reject (is_terminal run.snapshot.status) (invalid "Run is terminal")
    step ← apply_step r fresh run op
    ok (settle r turn step, step.returned)
