-- ===== src/Store/Types.antt =====
-- The record types of crates/whale-store/src/state.rs. `V` is `serde_json::Value`.
use whale_ai_sdk.Base.{Bool, List, Option, String, ℕ}
use whale_ai_sdk.Base.TreeMap.{TreeMap}
use whale_ai_sdk.Protocol.Canonical.{CanonicalItem}
use whale_ai_sdk.Protocol.Runs.{RunSnapshot, StartTurnParams, ToolExecutionRecord, UsageMetrics}
use whale_ai_sdk.Protocol.Recovery.{ModelInputRecord, UnknownExecution}

pub record StoredCall (V : Type 0) : Type 0 where
  pub call_id : String
  pub step_id : String
  pub tool_name : String
  pub result_item_id : String
  pub execution_id : String
  pub intent : Option (ToolExecutionRecord V)
  pub outcome : Option (CanonicalItem V)
  pub committed : Bool

pub record StoredRun (V : Type 0) : Type 0 where
  pub params : StartTurnParams V
  pub snapshot : RunSnapshot V
  pub effective_options : V
  pub history_start : ℕ
  pub model_inputs : List (ModelInputRecord V)
  pub calls : List (StoredCall V)

pub record SessionRecord (V : Type 0) : Type 0 where
  pub schema_version : ℕ
  pub created_at_ms : Option ℕ
  pub updated_at_ms : Option ℕ
  pub detached_since_ms : Option ℕ
  pub retired_at_ms : Option ℕ
  pub retirement_reason : Option String
  pub recovery_id : String
  pub secret_digest : String
  pub revision : ℕ
  pub epoch : ℕ
  pub owner : Option String
  pub thread_id : Option String
  pub historical_thread_ids : List String
  pub forgotten : Bool
  pub configuration : V
  pub history : List (CanonicalItem V)
  pub runs : TreeMap (StoredRun V)
  pub unknown_executions : List (UnknownExecution V)

pub data RunMutation (V : Type 0) : Type 0 where
  model_input : String → ℕ → V → RunMutation V
  model_item : String → CanonicalItem V → RunMutation V
  model_step_finished : String → UsageMetrics → RunMutation V
  dispatch_intent : String → ToolExecutionRecord V → RunMutation V
  tool_outcome : String → CanonicalItem V → RunMutation V
  tool_batch : List String → RunMutation V

pub record FinalizedRun (V : Type 0) : Type 0 where
  pub snapshot : RunSnapshot V
  pub history : List (CanonicalItem V)
