-- ===== src/Daemon/Views/Isolated.antt =====
-- Every operation on the registry keeps its records sound and under their own threads.
use whale_ai_sdk.Base.{
  ◌≡◌, Bool, Option, Option-cases, String, ap, arith, none, some, string_eq, sym, ℕ, ◌∙◌, inl, inr,
  subst,
}
use whale_ai_sdk.Base.Outcome.{Outcome, Outcome-split, ok}
use whale_ai_sdk.Base.TreeMap.{get, get-insert, get-remove, insert}
use whale_ai_sdk.Daemon.Views.Records.{replay, SessionViewRecord, publish}
use whale_ai_sdk.Daemon.Views.Rebuild.{step}
use whale_ai_sdk.Daemon.Views.Registry.{
  SessionViewRegistry, begin_run, changed_run, owned, publish_run_changed, publish_run_event,
  remove_from, remove_session, retire_session_run, subscribe,
}
use whale_ai_sdk.Daemon.Views.Served.{replay-accepted}
use whale_ai_sdk.Daemon.Views.Sound.{Sound, publish-Sound, retire_run-Sound}
use whale_ai_sdk.Protocol.Events.{RunEvent}
use whale_ai_sdk.Protocol.Runs.{RunSnapshot}
use whale_ai_sdk.Protocol.Views.Replay.{
  SubscribeSessionParams, SubscribeSessionResult, validate_for,
}
use whale_ai_sdk.Protocol.Views.Types.{
  SessionEventEnvelope, SessionEventPayload, SessionProjectionError, new_run_view, run_changed,
  run_event,
}

module _ {V : Type 0} where
  abbrev pub AllSound : SessionViewRegistry V → Type 0
  AllSound records =
      (id : String) (r : SessionViewRecord V)
      → get records id ≡ some r
      → Sound r × (r.snapshot.cursor.thread_id ≡ id)

  pub owned-found :
      (records : SessionViewRegistry V) (thread_id owner : String) (r : SessionViewRecord V)
      → owned records thread_id owner ≡ ok r
      → (get records thread_id ≡ some r) × (r.owner ≡ owner)
  unfolding owned
  owned-found records thread_id owner r h = elim (Option-cases (get records thread_id)) [
    | inl gone ↦ absurd (ground arith)
    | inr (found, there) ↦ ground arith
  ]

  pub subscribe-accepted :
      (records : SessionViewRegistry V) (owner : String) (params : SubscribeSessionParams)
      (result : SubscribeSessionResult V)
      → AllSound records
      → subscribe records owner params ≡ ok result
      → (r : SessionViewRecord V) × (get records params.thread_id ≡ some r)
        × (r.owner ≡ owner)
        × (replay r params ≡ ok result)
        × (validate_for params result ≡ ok tt)
  unfolding subscribe
  subscribe-accepted records owner params result all h =
      elim (Outcome-split (owned records params.thread_id owner)) [
        | inr (m, failed) ↦ absurd (ground arith)
        | inl (r, found) ↦
            let (there, mine) = owned-found records params.thread_id owner r found in
            let (sound, thread) = all params.thread_id r there in
            let served : replay r params ≡ ok result = ground arith in
            (r, there, mine, served, replay-accepted r params result sound (sym thread) served)
      ]

  pub insert-AllSound :
      (records : SessionViewRegistry V) (id : String) (r : SessionViewRecord V)
      → AllSound records
      → Sound r
      → r.snapshot.cursor.thread_id ≡ id
      → AllSound (insert records id r)
  insert-AllSound records id r all sound thread j q h =
      let found = sym (get-insert records id j r) ∙ h in
      elim (string_eq.dec j id) [
        | yes same ↦ let is : r ≡ q = ground arith in (subst Sound is sound, ground arith)
        | no other ↦ all j q (ground arith)
      ]

  module _ (size : SessionEventEnvelope V → Outcome String ℕ)
      (display : SessionProjectionError → String) where
    published-AllSound :
        (records : SessionViewRegistry V) (id owner : String) (r : SessionViewRecord V) (at : ℕ)
        (payload : SessionEventPayload V) (run : Option (String × ℕ)) (r' : SessionViewRecord V)
        (e : SessionEventEnvelope V)
        → AllSound records
        → owned records id owner ≡ ok r
        → publish size display r at payload run ≡ ok (r', e)
        → AllSound (insert records id r')
    published-AllSound records id owner r at payload run r' e all found h =
        let (there, mine) = owned-found records id owner r found in
        let (sound, thread) = all id r there in
        let (applied, sound') = publish-Sound size display r at payload run r' e sound h in
        let (reached, follows) = step r.snapshot e r'.snapshot applied in
        insert-AllSound records id r' all sound'
          (ap (λ c. c.thread_id) reached ∙ ap (λ c. c.thread_id) follows ∙ thread)

    pub begin_run-AllSound :
        (records : SessionViewRegistry V) (owner : String) (snapshot : RunSnapshot V)
        (identity at : ℕ) (records' : SessionViewRegistry V) (e : SessionEventEnvelope V)
        → AllSound records
        → begin_run size display records owner snapshot identity at ≡ ok (records', e)
        → AllSound records'
    unfolding begin_run
    begin_run-AllSound records owner snapshot identity at records' e all h =
        let id = snapshot.thread_id in
        let payload = run_changed (new_run_view snapshot at) in
        elim (Outcome-split (owned records id owner)) [
          | inr (m, failed) ↦ absurd (ground arith)
          | inl (r, found) ↦
              elim (Outcome-split
                (publish size display r at payload (some (snapshot.turn_id, identity)))) [
                  | inr (m, failed) ↦ absurd (ground arith)
                  | inl ((r', e'), done) ↦ subst AllSound (ground arith) (
                      published-AllSound records id owner r at payload
                        (some (snapshot.turn_id, identity)) r' e' all found done)
                ]
        ]

    pub publish_run_event-AllSound :
        (records : SessionViewRegistry V) (owner : String) (event : RunEvent V) (at : ℕ)
        (records' : SessionViewRegistry V) (e : SessionEventEnvelope V)
        → AllSound records
        → publish_run_event size display records owner event at ≡ ok (records', e)
        → AllSound records'
    unfolding publish_run_event
    publish_run_event-AllSound records owner event at records' e all h =
        let id = event.thread_id in
        elim (Outcome-split (owned records id owner)) [
          | inr (m, failed) ↦ absurd (ground arith)
          | inl (r, found) ↦
              elim (Outcome-split (publish size display r at (run_event event) none)) [
                | inr (m, failed) ↦ absurd (ground arith)
                | inl ((r', e'), done) ↦ subst AllSound (ground arith) (
                    published-AllSound records id owner r at (run_event event) none r' e' all found
                      done)
              ]
        ]

    pub publish_run_changed-AllSound :
        (records : SessionViewRegistry V) (owner : String) (snapshot : RunSnapshot V) (at : ℕ)
        (records' : SessionViewRegistry V) (e : SessionEventEnvelope V)
        → AllSound records
        → publish_run_changed size display records owner snapshot at ≡ ok (records', e)
        → AllSound records'
    unfolding publish_run_changed
    publish_run_changed-AllSound records owner snapshot at records' e all h =
        let id = snapshot.thread_id in
        elim (Outcome-split (owned records id owner)) [
          | inr (m, failed) ↦ absurd (ground arith)
          | inl (r, found) ↦ elim (Outcome-split (changed_run r snapshot at)) [
            | inr (m, failed) ↦ absurd (ground arith)
            | inl (run, changed) ↦
                elim (Outcome-split (publish size display r at (run_changed run) none)) [
                  | inr (m, failed) ↦ absurd (ground arith)
                  | inl ((r', e'), done) ↦ subst AllSound (ground arith) (
                      published-AllSound records id owner r at (run_changed run) none r' e' all
                        found done)
                ]
          ]
        ]

  pub retire_session_run-AllSound :
      (records : SessionViewRegistry V) (id turn_id : String) (identity : ℕ)
      (records' : SessionViewRegistry V) (retired : Bool)
      → AllSound records
      → retire_session_run records id turn_id identity ≡ ok (records', retired)
      → AllSound records'
  unfolding retire_session_run
  retire_session_run-AllSound records id turn_id identity records' retired all h =
      elim (Option-cases (get records id)) [
        | inl gone ↦ absurd (ground arith)
        | inr (r, there) ↦
            let (sound, thread) = all id r there in
            let (r', retired', done, same, sound') = retire_run-Sound r turn_id identity sound in
            subst AllSound (ground arith) (
              insert-AllSound records id r' all sound' (ap (λ s. s.cursor.thread_id) same ∙ thread))
      ]

  pub remove_session-AllSound :
      (records : SessionViewRegistry V) (id owner : String)
      → AllSound records
      → AllSound (remove_session records id owner)
  unfolding remove_session remove_from
  remove_session-AllSound records id owner all j q h =
      let left = get-remove records id j in
      elim (Option-cases (get records id)) [
        | inl gone ↦ all j q (ground arith)
        | inr (r, there) ↦ elim (string_eq.dec r.owner owner) [
          | no other ↦ all j q (ground arith)
          | yes mine ↦ elim (string_eq.dec j id) [
            | yes same ↦ absurd (ground arith)
            | no other ↦ all j q (ground arith)
          ]
        ]
      ]
