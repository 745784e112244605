-- ===== src/Daemon/Views/Registry.antt =====
-- `SessionViewRegistry`: the records of the live sessions by their threads. Each operation is a
-- step on the map, which holds the next record where the source changes it behind its lock.
use whale_ai_sdk.Base.{
  ◌!=◌, List, Option, String, if◌then◌else◌, is_some, max, none, some, string_eq, ℕ, Bool,
}
use whale_ai_sdk.Base.Outcome.{Outcome, ok, or_err, refuse, ◌>>=◌, ◌>>◌}
use whale_ai_sdk.Base.TreeMap.{TreeMap, get, insert, remove}
use whale_ai_sdk.Daemon.Views.Journal.{EventJournalLimits}
use whale_ai_sdk.Daemon.Views.Records.{
  SessionViewRecord, publish, replay, retire_run, snapshot_with_history_limit, with_owner,
}
use whale_ai_sdk.Protocol.Canonical.{CanonicalItem}
use whale_ai_sdk.Protocol.Events.{RunEvent}
use whale_ai_sdk.Protocol.Runs.{RunSnapshot}
use whale_ai_sdk.Protocol.Views.Replay.{
  GetSessionParams, SubscribeSessionParams, SubscribeSessionResult, validate_get,
}
use whale_ai_sdk.Protocol.Views.Types.{
  SessionEventEnvelope, SessionProjectionError, SessionRunView, SessionSnapshot, new_run_view,
  new_summary, run_changed, run_event,
}
use whale_ai_sdk.Protocol.Views.Window.{from_history}

abbrev pub SessionViewRegistry : Type 0 → Type 0
SessionViewRegistry V = TreeMap (SessionViewRecord V)

module _ {V : Type 0} where
  -- `stream_id` is the fresh UUID.
  unfoldable pub insert_session :
      EventJournalLimits
      → String
      → SessionViewRegistry V
      → String
      → String
      → Option String
      → TreeMap V
      → List (CanonicalItem V)
      → ℕ
      → Outcome String (SessionViewRegistry V)
  insert_session limits stream_id records owner thread_id agent_name metadata history
        created_at_ms =
      do
        window ← from_history history 1024
        made ←
            with_owner owner
              (record (new_summary thread_id created_at_ms) {
                agent_name = agent_name;
                metadata = metadata;
              })
              window stream_id limits
        refuse (is_some (get records thread_id)) "SessionAlreadyExists"
        ok (insert records thread_id made)

  unfoldable pub owned :
      SessionViewRegistry V → String → String → Outcome String (SessionViewRecord V)
  owned records thread_id owner = do
    found ← or_err (get records thread_id) "SessionNotFound"
    refuse (found.owner != owner) "SessionNotFound"
    ok found

  unfoldable pub get_session :
      SessionViewRegistry V → String → GetSessionParams → Outcome String (SessionSnapshot V)
  get_session records owner params = do
    validate_get params
    found ← owned records params.thread_id owner
    ok (snapshot_with_history_limit found params.history_limit)

  unfoldable pub subscribe :
      SessionViewRegistry V
      → String
      → SubscribeSessionParams
      → Outcome String (SubscribeSessionResult V)
  subscribe records owner params = do
    found ← owned records params.thread_id owner
    replay found params

  -- The three ways to publish, each with its payload and the identity of a run that begins.
  unfoldable pub changed_run :
      SessionViewRecord V → RunSnapshot V → ℕ → Outcome String (SessionRunView V)
  changed_run found snapshot occurred_at_ms = do
    active ← or_err found.snapshot.active_run "Session has no active Run projection"
    refuse (active.snapshot.turn_id != snapshot.turn_id) "Session active Run identity changed"
    ok (record active {
      snapshot = snapshot;
      updated_at_ms = max active.updated_at_ms occurred_at_ms;
    })

  module _ (size : SessionEventEnvelope V → Outcome String ℕ)
      (display : SessionProjectionError → String) where
    unfoldable pub begin_run :
        SessionViewRegistry V
        → String
        → RunSnapshot V
        → ℕ
        → ℕ
        → Outcome String (SessionViewRegistry V × SessionEventEnvelope V)
    begin_run records owner snapshot identity occurred_at_ms = do
      found ← owned records snapshot.thread_id owner
      next ←
          publish size display found occurred_at_ms
            (run_changed (new_run_view snapshot occurred_at_ms)) (some (snapshot.turn_id, identity))
      ok (insert records snapshot.thread_id next.0, next.1)

    unfoldable pub publish_run_event :
        SessionViewRegistry V
        → String
        → RunEvent V
        → ℕ
        → Outcome String (SessionViewRegistry V × SessionEventEnvelope V)
    publish_run_event records owner event occurred_at_ms = do
      found ← owned records event.thread_id owner
      next ← publish size display found occurred_at_ms (run_event event) none
      ok (insert records event.thread_id next.0, next.1)

    unfoldable pub publish_run_changed :
        SessionViewRegistry V
        → String
        → RunSnapshot V
        → ℕ
        → Outcome String (SessionViewRegistry V × SessionEventEnvelope V)
    publish_run_changed records owner snapshot occurred_at_ms = do
      found ← owned records snapshot.thread_id owner
      run ← changed_run found snapshot occurred_at_ms
      next ← publish size display found occurred_at_ms (run_changed run) none
      ok (insert records snapshot.thread_id next.0, next.1)

  unfoldable pub retire_session_run :
      SessionViewRegistry V → String → String → ℕ → Outcome String (SessionViewRegistry V × Bool)
  retire_session_run records thread_id turn_id identity = do
    found ← or_err (get records thread_id) "SessionNotFound"
    next ← retire_run found turn_id identity
    ok (insert records thread_id next.0, next.1)

  unfoldable pub remove_from :
      SessionViewRegistry V → String → String → Option (SessionViewRecord V) → SessionViewRegistry V
  remove_from records thread_id owner none = records
  remove_from records thread_id owner (some found) =
      if found.owner != owner then records else remove records thread_id

  unfoldable pub remove_session : SessionViewRegistry V → String → String → SessionViewRegistry V
  remove_session records thread_id owner =
      remove_from records thread_id owner (get records thread_id)
