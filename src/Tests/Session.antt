-- ===== src/Tests/Session.antt =====
-- A session that begins one run, asks the model once, records its tool call, dispatches it, and
-- stores its outcome.
use whale_ai_sdk.Base.{◌∷◌, Option, [], none, some}
use whale_ai_sdk.Base.TreeMap.{get}
use whale_ai_sdk.Protocol.Canonical.{tool_call, user_message}
use whale_ai_sdk.Protocol.Recovery.{RecoveryKey}
use whale_ai_sdk.Protocol.Runs.{RunSnapshot, RunStatus, StartTurnParams, ToolExecutionRecord}
use whale_ai_sdk.Store.Error.{Result, err, ok}
use whale_ai_sdk.Store.Runtime.{new_record}
use whale_ai_sdk.Store.State.Begin.{begin}
use whale_ai_sdk.Store.State.Finalize.{finalize}
use whale_ai_sdk.Store.State.Mutate.{FreshIds, mutate}
use whale_ai_sdk.Store.State.Usage.{no_usage}
use whale_ai_sdk.Store.Types.{
  FinalizedRun, RunMutation, SessionRecord, StoredRun, dispatch_intent, model_input, model_item,
  model_step_finished,
}
use whale_ai_sdk.Tests.Json.{Json, json_env, json_eq}

abbrev pub key : RecoveryKey
key = record {
  recovery_id = "5f0c8d4e-7c55-4d3c-9d2b-0d7a51b7c111";
  secret = "0123456789abcdef0123456789abcdef0123456789abcdef0123456789abcdef";
}

abbrev pub created : SessionRecord Json
created = new_record 5 key Json.nil "host" "thread"

abbrev pub params : StartTurnParams Json
params = record {
  thread_id = "thread";
  turn_id = "turn";
  input_items = user_message "question" [] ∷ [];
  options = none;
  max_steps = 4;
  timeout_ms = none;
}

abbrev pub running : RunSnapshot Json
running = record {
  tool_executions = [];
  thread_id = "thread";
  turn_id = "turn";
  status = RunStatus.running;
  items = [];
  usage = no_usage;
  pending_approvals = [];
  last_seq = 0;
  result = none;
  error = none;
}

abbrev pub completed : RunSnapshot Json
completed = record running { status = RunStatus.completed }

abbrev pub fresh : FreshIds
fresh = record { result_item_id = "result"; execution_id = "execution" }

abbrev pub execution : ToolExecutionRecord Json
execution = record { call_id = "call"; original_arguments = Json.nil; arguments = Json.nil }

-- The first part of a success.
abbrev pub after {ℓ κ} : {A : Type ℓ} {B : Type κ} → A → Result (A × B) → A
after old (ok (new, b)) = new
after old (err e) = old

abbrev pub commit : SessionRecord Json → RunMutation Json → SessionRecord Json
commit r op = after r (mutate r fresh "turn" op)

abbrev pub begun : SessionRecord Json
begun = after created (begin created params running Json.nil)

abbrev pub asked : SessionRecord Json
asked = commit begun (model_input "step" 0 Json.nil)

abbrev pub called : SessionRecord Json
called =
    commit asked (model_item "step" (tool_call "item" "call" none "tool" (some Json.nil) "raw"))

abbrev pub finished : SessionRecord Json
finished = commit called (model_step_finished "step" no_usage)

abbrev pub dispatched : SessionRecord Json
dispatched = commit finished (dispatch_intent "call" execution)

abbrev pub ended : SessionRecord Json
ended = after dispatched (finalize dispatched "turn" completed)

-- The second part of a success.
abbrev pub answer {ℓ κ} : {A : Type ℓ} {B : Type κ} → B → Result (A × B) → B
answer old (ok (a, new)) = new
answer old (err e) = old

abbrev pub closed : FinalizedRun Json
closed =
    answer (record { snapshot = completed; history = [] }) (finalize dispatched "turn" completed)

abbrev pub or_else {ℓ} : {A : Type ℓ} → A → Option A → A
or_else a none = a
or_else a (some b) = b

-- The run that the session has begun, as it stands before its end.
abbrev pub live_run : StoredRun Json
live_run =
    or_else
      (record {
        params = params;
        snapshot = running;
        effective_options = Json.nil;
        history_start = 0;
        model_inputs = [];
        calls = [];
      })
      (get dispatched.runs "turn")
