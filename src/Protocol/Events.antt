-- ===== src/Protocol/Events.antt =====
-- crates/whale-protocol/src/events.rs and the events of crates/whale-protocol/src/runs.rs. The
-- fields of a variant stand in the order of the source; `progress` is the bit pattern of an `f64`.
use whale_ai_sdk.Base.{Option, String, ℕ}
use whale_ai_sdk.Protocol.Canonical.{CanonicalItem, MessagePhase}
use whale_ai_sdk.Protocol.Runs.{RunSnapshot, UsageMetrics}

pub data AgentStreamEvent (V : Type 0) : Type 0 where
  tool_progress : String → String → String → Option ℕ → AgentStreamEvent V
  tool_execution_started : String → String → V → V → AgentStreamEvent V
  turn_started : String → String → AgentStreamEvent V
  item_started : String → String → String → Option MessagePhase → AgentStreamEvent V
  text_delta : String → String → String → AgentStreamEvent V
  reasoning_delta : String → String → String → AgentStreamEvent V
  reasoning_signature : String → String → String → AgentStreamEvent V
  tool_call_delta : String → String → String → String → AgentStreamEvent V
  item_completed : String → CanonicalItem V → AgentStreamEvent V
  approval_requested : String → String → CanonicalItem V → Option String → AgentStreamEvent V
  turn_completed : String → String → UsageMetrics → AgentStreamEvent V
  turn_failed : String → String → String → String → AgentStreamEvent V

pub data RunEventPayload (V : Type 0) : Type 0 where
  stream : AgentStreamEvent V → RunEventPayload V
  finished : RunSnapshot V → RunEventPayload V

pub record RunEvent (V : Type 0) : Type 0 where
  pub thread_id : String
  pub turn_id : String
  pub seq : ℕ
  pub payload : RunEventPayload V

-- `stream_turn_id` of crates/whale-protocol/src/session_views.rs: the first field of each.
unfoldable pub stream_turn_id : {V : Type 0} → AgentStreamEvent V → String
stream_turn_id (tool_progress turn call message progress) = turn
stream_turn_id (tool_execution_started turn call original arguments) = turn
stream_turn_id (turn_started turn thread) = turn
stream_turn_id (item_started turn item kind phase) = turn
stream_turn_id (text_delta turn item delta) = turn
stream_turn_id (reasoning_delta turn item delta) = turn
stream_turn_id (reasoning_signature turn item signature) = turn
stream_turn_id (tool_call_delta turn item call delta) = turn
stream_turn_id (item_completed turn item) = turn
stream_turn_id (approval_requested turn request call reason) = turn
stream_turn_id (turn_completed turn thread usage) = turn
stream_turn_id (turn_failed turn thread code message) = turn
