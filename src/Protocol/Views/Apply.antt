-- ===== src/Protocol/Views/Apply.antt =====
-- `SessionSnapshot::apply`: one ordered event of a session, applied to a projection of it.
use whale_ai_sdk.Base.{
  ◌!=◌, ◌||◌, ◌∷◌, Bool, List, String, [], false, if◌then◌else◌, leb, max, nat_eq, none, not, some,
  string_eq, true, ℕ,
}
use whale_ai_sdk.Base.Outcome.{Outcome, map_err, ok, or_err, refuse, ◌>>=◌, ◌>>◌}
use whale_ai_sdk.Protocol.Canonical.{CanonicalItem, id_of}
use whale_ai_sdk.Protocol.Events.{RunEvent, RunEventPayload, finished, stream}
use whale_ai_sdk.Protocol.Runs.{RunSnapshot, is_terminal}
use whale_ai_sdk.Protocol.Views.Types.{
  SessionEventEnvelope, SessionEventPayload, SessionHistoryWindow, SessionProjectionError,
  SessionSnapshot, cursor_eq, invalid_state, run_changed, run_event, sequence_gap, stream_mismatch,
}
use whale_ai_sdk.Protocol.Views.Validate.{checked_next, validate_envelope, validate_snapshot}
use whale_ai_sdk.Protocol.Views.Stream.{apply_stream_event}
use whale_ai_sdk.Protocol.Views.Window.{append_unless_known, is_known}

module _ {V : Type 0} where
  -- The loop over the items of a finished run; `known` are those of its projection.
  unfoldable pub append_items :
      SessionHistoryWindow V
      → List (CanonicalItem V)
      → List (CanonicalItem V)
      → Outcome String (SessionHistoryWindow V)
  append_items history known [] = ok history
  append_items history known (item ∷ items) = do
    appended ← append_unless_known history item (is_known (id_of item) known)
    append_items appended.0 known items

  unfoldable pub apply_finished :
      SessionSnapshot V → RunEvent V → RunSnapshot V → ℕ → Outcome String (SessionSnapshot V)
  apply_finished s event snapshot occurred_at_ms = do
    refuse
        (not (is_terminal snapshot.status)
          || (snapshot.thread_id != s.summary.thread_id
              || (snapshot.turn_id != event.turn_id || snapshot.last_seq != event.seq)))
        "Invalid terminal Run event in Session projection"
    active ← or_err s.active_run "Terminal Run event has no matching active Run projection"
    refuse (active.snapshot.turn_id != event.turn_id)
        "Terminal Run event belongs to another active Run"
    history ← append_items s.history active.snapshot.items snapshot.items
    ok (record s {
      history = history;
      last_run = some (record {
        turn_id = event.turn_id;
        status = snapshot.status;
        usage = snapshot.usage;
        error = snapshot.error;
        accepted_at_ms = active.accepted_at_ms;
        completed_at_ms = max occurred_at_ms active.accepted_at_ms;
      });
      active_run = none;
    })

  unfoldable pub apply_run_payload :
      SessionSnapshot V → RunEvent V → RunEventPayload V → ℕ → Outcome String (SessionSnapshot V)
  apply_run_payload s event (stream streamed) at = apply_stream_event s event streamed at
  apply_run_payload s event (finished snapshot) at = apply_finished s event snapshot at

  unfoldable pub apply_payload :
      SessionSnapshot V → SessionEventPayload V → ℕ → Outcome String (SessionSnapshot V)
  apply_payload s (run_changed run) at = ok (record s { active_run = some run })
  apply_payload s (run_event event) at = apply_run_payload s event event.payload at

  -- The snapshot of the successor before its final validation.
  unfoldable pub advance : SessionSnapshot V → SessionEventEnvelope V → SessionSnapshot V
  advance next envelope = record next {
    summary = record next.summary {
      updated_at_ms = max next.summary.updated_at_ms envelope.occurred_at_ms;
      revision = envelope.cursor.seq;
    };
    cursor = envelope.cursor;
  }

  -- An event whose cursor is ahead of the snapshot's.
  unfoldable pub apply_next :
      SessionSnapshot V
      → SessionEventEnvelope V
      → Outcome SessionProjectionError (SessionSnapshot V × Bool)
  apply_next s envelope = do
    expected ← map_err invalid_state (checked_next s.cursor)
    refuse (envelope.cursor != expected) (sequence_gap expected envelope.cursor)
    next ← map_err invalid_state (apply_payload s envelope.payload envelope.occurred_at_ms)
    map_err invalid_state (validate_snapshot (advance next envelope))
    ok (advance next envelope, true)

  -- The snapshot, and whether the event was applied.
  unfoldable pub apply_event :
      SessionSnapshot V
      → SessionEventEnvelope V
      → Outcome SessionProjectionError (SessionSnapshot V × Bool)
  apply_event s envelope = do
    map_err invalid_state (validate_snapshot s)
    map_err invalid_state (validate_envelope envelope)
    refuse
        (envelope.thread_id != s.summary.thread_id
          || envelope.cursor.stream_id != s.cursor.stream_id)
        (stream_mismatch (s.summary.thread_id, s.cursor.stream_id)
          (envelope.thread_id, envelope.cursor.stream_id))
    if leb envelope.cursor.seq s.cursor.seq then ok (s, false) else apply_next s envelope
