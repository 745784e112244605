-- ===== src/Daemon/Views/Records.antt =====
-- `SessionViewRecord`, without its notifier: publication, retirement of a run, the snapshot and the
-- pages that a client is served. The length of a serialized event is the argument `size`.
use whale_ai_sdk.Base.{
  ◌!=◌, ◌&&◌, ◌-◌, ◌==◌, ◌∷◌, Bool, List, Option, String, [], drop, false, if◌then◌else◌,
  is_some_and, leb, length, ltb, min, nat_eq, none, option_eq, some, string_eq, true, ℕ, ◌||◌, take,
}
use whale_ai_sdk.Base.Outcome.{Outcome, map_err, ok, or_err, refuse, ◌>>=◌, ◌>>◌}
use whale_ai_sdk.Base.TreeMap.{TreeMap, get, insert, remove}
use whale_ai_sdk.Daemon.Views.Journal.{
  EventJournalLimits, JournalEntry, JournalState, retain_prepared, scrub_run,
}
use whale_ai_sdk.Protocol.Views.Apply.{apply_event}
use whale_ai_sdk.Protocol.Views.Replay.{
  ReplayGapReason, SubscribeSessionParams, SubscribeSessionResult, retention, stream_reset,
  validate_subscribe,
}
use whale_ai_sdk.Protocol.Views.Types.{
  SessionCursor, SessionEventEnvelope, SessionEventPayload, SessionHistoryWindow,
  SessionProjectionError, SessionSnapshot, SessionSummary, new_snapshot, run_changed, run_event,
}
use whale_ai_sdk.Protocol.Views.Validate.{checked_next, validate_envelope, validate_snapshot}

-- `journal`, `journal_bytes` and `replay_floor` of the source are the fields of `retained`.
pub record SessionViewRecord (V : Type 0) : Type 0 where
  pub owner : String
  pub snapshot : SessionSnapshot V
  pub retained : JournalState V
  pub limits : EventJournalLimits
  pub run_identities : TreeMap ℕ

unfoldable pub with_identity : TreeMap ℕ → Option (String × ℕ) → TreeMap ℕ
with_identity identities none = identities
with_identity identities (some (turn_id, identity)) = insert identities turn_id identity

abbrev pub or_current : Option SessionCursor → SessionCursor → SessionCursor
or_current none current = current
or_current (some fixed) current = fixed

module _ {V : Type 0} where
  unfoldable pub event_turn_id : SessionEventPayload V → String
  event_turn_id (run_changed run) = run.snapshot.turn_id
  event_turn_id (run_event event) = event.turn_id

  unfoldable pub with_owner :
      String
      → SessionSummary V
      → SessionHistoryWindow V
      → String
      → EventJournalLimits
      → Outcome String (SessionViewRecord V)
  with_owner owner summary history stream_id limits = do
    let cursor : SessionCursor = record {
      thread_id = summary.thread_id;
      stream_id = stream_id;
      seq = 0;
    }
    validate_snapshot (new_snapshot summary history cursor)
    ok (record {
      owner = owner;
      snapshot = new_snapshot summary history cursor;
      retained = record { journal = []; journal_bytes = 0; replay_floor = cursor };
      limits = limits;
      run_identities = [];
    })

  unfoldable pub next_envelope :
      SessionViewRecord V → SessionCursor → ℕ → SessionEventPayload V → SessionEventEnvelope V
  next_envelope r cursor occurred_at_ms payload = record {
    thread_id = r.snapshot.summary.thread_id;
    cursor = cursor;
    occurred_at_ms = occurred_at_ms;
    payload = payload;
  }

  -- `size` is `serde_json::to_vec`, as the length or the message of its error; `display` the text of
  -- a projection error. `prepare` and `install` are one step: a session's publications and
  -- retirements hold its lane from the one to the other.
  unfoldable pub publish :
      (SessionEventEnvelope V → Outcome String ℕ)
      → (SessionProjectionError → String)
      → SessionViewRecord V
      → ℕ
      → SessionEventPayload V
      → Option (String × ℕ)
      → Outcome String (SessionViewRecord V × SessionEventEnvelope V)
  publish size display r occurred_at_ms payload run_identity = do
    cursor ← checked_next r.snapshot.cursor
    let envelope = next_envelope r cursor occurred_at_ms payload
    validate_envelope envelope
    bytes ← size envelope
    applied ← map_err display (apply_event r.snapshot envelope)
    retained ←
        or_err (retain_prepared r.retained r.limits envelope bytes (some (event_turn_id payload)))
          "nonempty bounded journal"
    ok (
      record r {
        snapshot = applied.0;
        retained = retained;
        run_identities = with_identity r.run_identities run_identity;
      },
      envelope,
    )

  -- `prepare_retire_run` and its `install`; the Boolean tells whether anything was retired.
  unfoldable pub retire_run :
      SessionViewRecord V → String → ℕ → Outcome String (SessionViewRecord V × Bool)
  retire_run r turn_id identity =
      if get r.run_identities turn_id != some identity
        || is_some_and r.snapshot.active_run (λ run. run.snapshot.turn_id == turn_id)
      then ok (r, false)
      else (do
        retained ← or_err (scrub_run r.retained turn_id) "checked nonempty"
        ok (
          record r { retained = retained; run_identities = remove r.run_identities turn_id },
          true,
        ))

  unfoldable pub snapshot_with_history_limit : SessionViewRecord V → ℕ → SessionSnapshot V
  snapshot_with_history_limit r history_limit =
      let window = r.snapshot.history in
      let keep = min (length window.items) history_limit in
      record r.snapshot {
        history = record window {
          items = drop (length window.items - keep) window.items;
          start_index = window.total_items - keep;
          capacity = history_limit;
        };
      }

  -- The entries after a cursor, up to another.
  unfoldable pub between : ℕ → ℕ → List (JournalEntry V) → List (SessionEventEnvelope V)
  between after through [] = []
  between after through (entry ∷ entries) =
      let rest = between after through entries in
      if ltb after entry.envelope.cursor.seq && leb entry.envelope.cursor.seq through
      then entry.envelope ∷ rest
      else rest

  unfoldable pub last_cursor : SessionCursor → List (SessionEventEnvelope V) → SessionCursor
  last_cursor after [] = after
  last_cursor after (event ∷ events) = last_cursor event.cursor events

  unfoldable pub replay_gap :
      SessionViewRecord V
      → SubscribeSessionParams
      → SessionCursor
      → ReplayGapReason
      → SubscribeSessionResult V
  replay_gap r params through reason = record {
    events = [];
    resume_after = params.after;
    through = through;
    has_more = false;
    gap = some (record {
      reason = reason;
      requested = params.after;
      replay_floor = r.retained.replay_floor;
      current = r.snapshot.cursor;
      session_revision = r.snapshot.summary.revision;
    });
  }

  unfoldable pub replay_page :
      SessionViewRecord V → SubscribeSessionParams → SessionCursor → SubscribeSessionResult V
  replay_page r params through =
      let events = take params.limit (between params.after.seq through.seq r.retained.journal) in
      let resume_after = last_cursor params.after events in
      record {
        events = events;
        resume_after = resume_after;
        through = through;
        has_more = ltb resume_after.seq through.seq;
        gap = none;
      }

  unfoldable pub replay :
      SessionViewRecord V → SubscribeSessionParams → Outcome String (SubscribeSessionResult V)
  replay r params = do
    validate_subscribe params
    let current = r.snapshot.cursor
    let through = or_current params.through current
    if params.after.stream_id != current.stream_id
        then ok (replay_gap r params current stream_reset)
        else (do
          refuse (ltb current.seq params.after.seq)
              "Replay cursor is ahead of the current Session cursor"
          if is_some_and params.through (λ fixed. fixed.stream_id != current.stream_id)
              then ok (replay_gap r params current stream_reset)
              else (do
                refuse (is_some_and params.through (λ fixed. ltb current.seq fixed.seq))
                    "Fixed replay high watermark is ahead of the current Session cursor"
                if ltb params.after.seq r.retained.replay_floor.seq
                    then ok (replay_gap r params through retention)
                    else ok (replay_page r params through)))
