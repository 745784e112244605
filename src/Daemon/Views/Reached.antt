-- ===== src/Daemon/Views/Reached.antt =====
-- The registry as a state machine: what its operations, in any order and number, lead to.
use whale_ai_sdk.Base.{
  ◌≡◌, Bool, List, Option, String, [], arith, some, ℕ, inl, inr, subst, string_eq,
}
use whale_ai_sdk.Base.Outcome.{Outcome, Outcome-split, ok}
use whale_ai_sdk.Base.TreeMap.{TreeMap, get}
use whale_ai_sdk.Daemon.Views.Isolated.{
  AllSound, begin_run-AllSound, insert-AllSound, publish_run_changed-AllSound,
  publish_run_event-AllSound, remove_session-AllSound, retire_session_run-AllSound,
  subscribe-accepted,
}
use whale_ai_sdk.Daemon.Views.Journal.{EventJournalLimits}
use whale_ai_sdk.Daemon.Views.Records.{SessionViewRecord, replay, with_owner}
use whale_ai_sdk.Daemon.Views.Registry.{
  SessionViewRegistry, begin_run, insert_session, publish_run_changed, publish_run_event,
  remove_session, retire_session_run, subscribe,
}
use whale_ai_sdk.Daemon.Views.Sound.{Sound, with_owner-Sound}
use whale_ai_sdk.Protocol.Canonical.{CanonicalItem}
use whale_ai_sdk.Protocol.Events.{RunEvent}
use whale_ai_sdk.Protocol.Runs.{RunSnapshot}
use whale_ai_sdk.Protocol.Views.Replay.{
  SubscribeSessionParams, SubscribeSessionResult, validate_for,
}
use whale_ai_sdk.Protocol.Views.Types.{
  SessionEventEnvelope, SessionHistoryWindow, SessionProjectionError, SessionSummary, new_snapshot,
  new_summary,
}
use whale_ai_sdk.Protocol.Views.Window.{from_history}

module _ {V : Type 0} where
  with_owner-thread :
      (owner : String) (summary : SessionSummary V) (history : SessionHistoryWindow V)
      (stream_id : String) (limits : EventJournalLimits) (r : SessionViewRecord V)
      → with_owner owner summary history stream_id limits ≡ ok r
      → r.snapshot.cursor.thread_id ≡ summary.thread_id
  unfolding with_owner new_snapshot
  with_owner-thread owner summary history stream_id limits r h = ground arith

  insert_session-AllSound :
      (limits : EventJournalLimits) (stream_id : String) (records : SessionViewRegistry V)
      (owner thread_id : String) (agent_name : Option String) (metadata : TreeMap V)
      (history : List (CanonicalItem V)) (at : ℕ) (records' : SessionViewRegistry V)
      → AllSound records
      → insert_session limits stream_id records owner thread_id agent_name metadata history at
        ≡ ok records'
      → AllSound records'
  unfolding insert_session new_summary
  insert_session-AllSound limits stream_id records owner thread_id agent_name metadata history at
        records' all h =
      let summary : SessionSummary V = record (new_summary thread_id at) {
        agent_name = agent_name;
        metadata = metadata;
      } in
      elim (Outcome-split (from_history history 1024)) [
        | inr (m, failed) ↦ absurd (ground arith)
        | inl (window, built) ↦
            elim (Outcome-split (with_owner owner summary window stream_id limits)) [
              | inr (m, failed) ↦ absurd (ground arith)
              | inl (made, done) ↦ subst AllSound (ground arith) (
                  insert-AllSound records thread_id made all
                    (with_owner-Sound owner summary window stream_id limits made done)
                    (with_owner-thread owner summary window stream_id limits made done))
            ]
      ]

  module _ (limits : EventJournalLimits) (size : SessionEventEnvelope V → Outcome String ℕ)
      (display : SessionProjectionError → String) where
    -- The registries that the operations lead to from an empty one.
    pub data Reached : SessionViewRegistry V → Type 0 where
      starts : Reached []
      inserts :
          (records records' : SessionViewRegistry V) (stream_id owner thread_id : String)
          (agent_name : Option String) (metadata : TreeMap V) (history : List (CanonicalItem V))
          (at : ℕ)
          → Reached records
          → insert_session limits stream_id records owner thread_id agent_name metadata history at
            ≡ ok records'
          → Reached records'
      begins :
          (records records' : SessionViewRegistry V) (owner : String) (snapshot : RunSnapshot V)
          (identity at : ℕ) (e : SessionEventEnvelope V)
          → Reached records
          → begin_run size display records owner snapshot identity at ≡ ok (records', e)
          → Reached records'
      sends :
          (records records' : SessionViewRegistry V) (owner : String) (event : RunEvent V) (at : ℕ)
          (e : SessionEventEnvelope V)
          → Reached records
          → publish_run_event size display records owner event at ≡ ok (records', e)
          → Reached records'
      changes :
          (records records' : SessionViewRegistry V) (owner : String) (snapshot : RunSnapshot V)
          (at : ℕ) (e : SessionEventEnvelope V)
          → Reached records
          → publish_run_changed size display records owner snapshot at ≡ ok (records', e)
          → Reached records'
      retires :
          (records records' : SessionViewRegistry V) (id turn_id : String) (identity : ℕ)
          (retired : Bool)
          → Reached records
          → retire_session_run records id turn_id identity ≡ ok (records', retired)
          → Reached records'
      removes :
          (records : SessionViewRegistry V) (id owner : String)
          → Reached records
          → Reached (remove_session records id owner)

    Reached-AllSound : (records : SessionViewRegistry V) → Reached records → AllSound records
    unfolding get
    Reached-AllSound _ starts = λ id r h. absurd (ground arith)
    Reached-AllSound _
          (inserts records records' stream owner thread name metadata history at before h) =
        insert_session-AllSound limits stream records owner thread name metadata history at records'
          (Reached-AllSound records before) h
    Reached-AllSound _ (begins records records' owner snapshot identity at e before h) =
        begin_run-AllSound size display records owner snapshot identity at records' e
          (Reached-AllSound records before) h
    Reached-AllSound _ (sends records records' owner event at e before h) =
        publish_run_event-AllSound size display records owner event at records' e
          (Reached-AllSound records before) h
    Reached-AllSound _ (changes records records' owner snapshot at e before h) =
        publish_run_changed-AllSound size display records owner snapshot at records' e
          (Reached-AllSound records before) h
    Reached-AllSound _ (retires records records' id turn identity retired before h) =
        retire_session_run-AllSound records id turn identity records' retired
          (Reached-AllSound records before) h
    Reached-AllSound _ (removes records id owner before) =
        remove_session-AllSound records id owner (Reached-AllSound records before)

    -- Every record of a registry that the operations lead to from an empty one, in any order and
    -- number, is sound and stands under the thread of its own cursor: its snapshot is valid, and its
    -- journal is within its limits and leads from the replay floor to that snapshot.
    pub Reached-Sound :
        (records : SessionViewRegistry V)
        → Reached records
        → (id : String) (r : SessionViewRecord V) → get records id ≡ some r
        → Sound r × (r.snapshot.cursor.thread_id ≡ id)
    Reached-Sound records h id r there = Reached-AllSound records h id r there

    -- In such a registry, whatever a connection gets from `subscribe` is what the journal of a record
    -- that this connection owns replays for the request, and passes the client's check.
    pub Reached-accepted :
        (records : SessionViewRegistry V)
        → Reached records
        → (owner : String) (params : SubscribeSessionParams) (result : SubscribeSessionResult V)
        → subscribe records owner params ≡ ok result
        → (r : SessionViewRecord V) × (get records params.thread_id ≡ some r)
          × (r.owner ≡ owner)
          × (replay r params ≡ ok result)
          × (validate_for params result ≡ ok tt)
    Reached-accepted records h owner params result answered =
        subscribe-accepted records owner params result (Reached-AllSound records h) answered
