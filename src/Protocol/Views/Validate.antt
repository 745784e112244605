-- ===== src/Protocol/Views/Validate.antt =====
-- The `validate` methods of crates/whale-protocol/src/session_views.rs, each with its guards in
-- the order of the source.
use whale_ai_sdk.Base.{
  ◌!=◌, ◌&&◌, ◌==◌, ◌||◌, ◌∷◌, Bool, List, String, [], checked_add, contains, ltb, nat_eq, not,
  string_eq,
}
use whale_ai_sdk.Base.Outcome.{Outcome, if_some, ok, or_err, refuse, ◌>>=◌, ◌>>◌}
use whale_ai_sdk.Base.Text.{is_blank, is_padded}
use whale_ai_sdk.Protocol.Runs.{is_terminal}
use whale_ai_sdk.Protocol.Views.Types.{
  InProgressItemProjection, SessionCursor, SessionEventEnvelope, SessionEventPayload,
  SessionRunSummary, SessionRunView, SessionSnapshot, SessionSummary, run_changed, run_event,
}
use whale_ai_sdk.Protocol.Views.Window.{validate_identity, validate_window}

abbrev pub Checked : Type 0
Checked = Outcome String (Unit {0})

unfoldable pub validate_cursor : SessionCursor → Checked
validate_cursor c = do
  validate_identity c.thread_id "thread_id"
  validate_identity c.stream_id "stream_id"

unfoldable pub checked_next : SessionCursor → Outcome String SessionCursor
checked_next c = do
  validate_cursor c
  seq ← or_err (checked_add c.seq 1) "Session cursor sequence is exhausted"
  ok (record c { seq = seq })

unfoldable pub same_stream : SessionCursor → SessionCursor → Bool
same_stream c other = c.thread_id == other.thread_id && c.stream_id == other.stream_id

unfoldable pub validate_draft : InProgressItemProjection → Checked
validate_draft item = do
  validate_identity item.item_id "item_id"
  validate_identity item.item_type "item_type"
  if_some item.call_id (λ value. validate_identity value "call_id")
  if_some item.reasoning_signature (λ value. validate_identity value "reasoning_signature")

-- The loop over the drafts, with the identities met before.
unfoldable pub validate_drafts_from : List String → List InProgressItemProjection → Checked
validate_drafts_from seen [] = ok tt
validate_drafts_from seen (item ∷ items) = do
  validate_draft item
  refuse (contains seen item.item_id) "In-progress item identities must be unique"
  validate_drafts_from (item.item_id ∷ seen) items

unfoldable pub validate_run_summary : SessionRunSummary → Checked
validate_run_summary run = do
  validate_identity run.turn_id "turn_id"
  refuse (not (is_terminal run.status)) "A Session Run summary must be terminal"
  refuse (ltb run.completed_at_ms run.accepted_at_ms)
      "completed_at_ms must not precede accepted_at_ms"

module _ {V : Type 0} where
  unfoldable pub validate_summary : SessionSummary V → Checked
  validate_summary s = do
    validate_identity s.thread_id "thread_id"
    if_some s.agent_name (λ name.
        refuse (is_blank name || is_padded name)
          "agent_name must be nonempty and unpadded when present")
    refuse (ltb s.updated_at_ms s.created_at_ms) "updated_at_ms must not precede created_at_ms"

  unfoldable pub validate_run_view : SessionRunView V → Checked
  validate_run_view run = do
    validate_identity run.snapshot.thread_id "run thread_id"
    validate_identity run.snapshot.turn_id "turn_id"
    refuse (is_terminal run.snapshot.status) "An active Session Run view must not be terminal"
    refuse (ltb run.updated_at_ms run.accepted_at_ms)
        "Run updated_at_ms must not precede accepted_at_ms"
    validate_drafts_from [] run.in_progress_items

  unfoldable pub validate_snapshot : SessionSnapshot V → Checked
  validate_snapshot s = do
    validate_summary s.summary
    validate_cursor s.cursor
    refuse (s.summary.thread_id != s.cursor.thread_id)
        "Session snapshot cursor belongs to another thread"
    refuse (s.summary.revision != s.cursor.seq) "Session revision and cursor sequence must match"
    validate_window s.history
    if_some s.active_run (λ run. do
      validate_run_view run
      refuse (run.snapshot.thread_id != s.summary.thread_id) "Active Run belongs to another thread")
    if_some s.last_run (λ run. validate_run_summary run)

  unfoldable pub validate_payload : String → SessionEventPayload V → Checked
  validate_payload thread_id (run_changed run) = do
    validate_run_view run
    refuse (run.snapshot.thread_id != thread_id) "Changed Run belongs to another thread"
  validate_payload thread_id (run_event event) = do
    validate_identity event.turn_id "turn_id"
    refuse (event.thread_id != thread_id || event.seq == 0) "Run event belongs to another thread"

  unfoldable pub validate_envelope : SessionEventEnvelope V → Checked
  validate_envelope e = do
    validate_identity e.thread_id "thread_id"
    validate_cursor e.cursor
    refuse (e.cursor.thread_id != e.thread_id) "Session event cursor belongs to another thread"
    refuse (e.cursor.seq == 0) "Session event sequence must be positive"
    validate_payload e.thread_id e.payload
