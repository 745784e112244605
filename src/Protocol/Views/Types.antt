-- ===== src/Protocol/Views/Types.antt =====
-- The types of crates/whale-protocol/src/session_views.rs. `V` is `serde_json::Value`.
use whale_ai_sdk.Base.{Eq, List, Option, String, ℕ, string_eq, nat_eq, [], none}
use whale_ai_sdk.Base.TreeMap.{TreeMap}
use whale_ai_sdk.Protocol.Canonical.{CanonicalItem, MessagePhase}
use whale_ai_sdk.Protocol.Events.{RunEvent}
use whale_ai_sdk.Protocol.Runs.{RunFailure, RunSnapshot, RunStatus, UsageMetrics}

pub record SessionCursor : Type 0 where
  pub thread_id : String
  pub stream_id : String
  pub seq : ℕ

cursor_dec : Discrete SessionCursor
cursor_dec = hlevel (Eq.dec string_eq, Eq.dec nat_eq)

instance unfoldable pub cursor_eq : Eq SessionCursor
unfolding cursor_dec
cursor_eq = record { dec = cursor_dec }

pub record SessionSummary (V : Type 0) : Type 0 where
  pub thread_id : String
  pub agent_name : Option String
  pub metadata : TreeMap V
  pub created_at_ms : ℕ
  pub updated_at_ms : ℕ
  pub revision : ℕ

pub record InProgressItemProjection : Type 0 where
  pub item_id : String
  pub item_type : String
  pub phase : Option MessagePhase
  pub text : String
  pub call_id : Option String
  pub raw_arguments : String
  pub reasoning_signature : Option String

pub record SessionRunView (V : Type 0) : Type 0 where
  pub snapshot : RunSnapshot V
  pub in_progress_items : List InProgressItemProjection
  pub accepted_at_ms : ℕ
  pub updated_at_ms : ℕ

pub record SessionRunSummary : Type 0 where
  pub turn_id : String
  pub status : RunStatus
  pub usage : UsageMetrics
  pub error : Option RunFailure
  pub accepted_at_ms : ℕ
  pub completed_at_ms : ℕ

pub record SessionHistoryWindow (V : Type 0) : Type 0 where
  pub items : List (CanonicalItem V)
  pub start_index : ℕ
  pub total_items : ℕ
  pub capacity : ℕ

pub record SessionSnapshot (V : Type 0) : Type 0 where
  pub summary : SessionSummary V
  pub history : SessionHistoryWindow V
  pub active_run : Option (SessionRunView V)
  pub last_run : Option SessionRunSummary
  pub cursor : SessionCursor

pub data SessionEventPayload (V : Type 0) : Type 0 where
  run_changed : SessionRunView V → SessionEventPayload V
  run_event : RunEvent V → SessionEventPayload V

pub record SessionEventEnvelope (V : Type 0) : Type 0 where
  pub thread_id : String
  pub cursor : SessionCursor
  pub occurred_at_ms : ℕ
  pub payload : SessionEventPayload V

-- `expected` and `actual` of a mismatch are the pairs of a thread and a stream.
pub data SessionProjectionError : Type 0 where
  invalid_state : String → SessionProjectionError
  stream_mismatch : String × String → String × String → SessionProjectionError
  sequence_gap : SessionCursor → SessionCursor → SessionProjectionError

module _ {V : Type 0} where
  unfoldable pub new_summary : String → ℕ → SessionSummary V
  new_summary thread_id created_at_ms = record {
    thread_id = thread_id;
    agent_name = none;
    metadata = [];
    created_at_ms = created_at_ms;
    updated_at_ms = created_at_ms;
    revision = 0;
  }

  unfoldable pub new_run_view : RunSnapshot V → ℕ → SessionRunView V
  new_run_view snapshot accepted_at_ms = record {
    snapshot = snapshot;
    in_progress_items = [];
    accepted_at_ms = accepted_at_ms;
    updated_at_ms = accepted_at_ms;
  }

  unfoldable pub new_snapshot :
      SessionSummary V → SessionHistoryWindow V → SessionCursor → SessionSnapshot V
  new_snapshot summary history cursor = record {
    summary = summary;
    history = history;
    active_run = none;
    last_run = none;
    cursor = cursor;
  }
