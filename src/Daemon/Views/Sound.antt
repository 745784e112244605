-- ===== src/Daemon/Views/Sound.antt =====
-- Every operation on a record keeps its journal able to rebuild its snapshot.
use whale_ai_sdk.Base.{
  ◌≡◌, Bool, Bool-cases, Option, String, [], arith, false, refl, some, true, ℕ, inl, inr, sym,
  subst, is_some_and, ◌!=◌, ◌==◌, ◌||◌, option_eq, nat_eq, string_eq,
}
use whale_ai_sdk.Base.Outcome.{Outcome, Outcome-split, ok}
use whale_ai_sdk.Base.TreeMap.{get, remove}
use whale_ai_sdk.Daemon.Views.Journal.{EventJournalLimits, retain_prepared}
use whale_ai_sdk.Daemon.Views.Rebuild.{Consistent, retain-Consistent}
use whale_ai_sdk.Daemon.Views.Records.{
  SessionViewRecord, next_envelope, publish, retire_run, with_owner, event_turn_id,
}
use whale_ai_sdk.Daemon.Views.Scrub.{scrub-Consistent}
use whale_ai_sdk.Protocol.Views.Advance.{apply_event-result, checked_next-result}
use whale_ai_sdk.Protocol.Views.Apply.{apply_event}
use whale_ai_sdk.Protocol.Views.Types.{
  SessionCursor, SessionEventEnvelope, SessionEventPayload, SessionHistoryWindow,
  SessionProjectionError, SessionSummary, new_snapshot,
}
use whale_ai_sdk.Protocol.Views.Validate.{checked_next, validate_snapshot}

module _ {V : Type 0} where
  pub record Sound (r : SessionViewRecord V) : Type 0 where
    pub retained : Consistent r.limits r.retained r.snapshot
    pub valid : validate_snapshot r.snapshot ≡ ok tt

  -- A new record is sound.
  pub with_owner-Sound :
      (owner : String) (summary : SessionSummary V) (history : SessionHistoryWindow V)
      (stream_id : String) (limits : EventJournalLimits) (r : SessionViewRecord V)
      → with_owner owner summary history stream_id limits ≡ ok r
      → Sound r
  unfolding with_owner new_snapshot
  with_owner-Sound owner summary history stream_id limits r h =
      let cursor : SessionCursor = record {
        thread_id = summary.thread_id;
        stream_id = stream_id;
        seq = 0;
      } in
      let fresh : SessionViewRecord V = record {
        owner = owner;
        snapshot = new_snapshot summary history cursor;
        retained = record { journal = []; journal_bytes = 0; replay_floor = cursor };
        limits = limits;
        run_identities = [];
      } in
      let (made, valid) : (r ≡ fresh)
          × (validate_snapshot (new_snapshot summary history cursor) ≡ ok tt) =
        ground arith in
      subst Sound (sym made) (record {
        retained = record {
          base = fresh.snapshot;
          at_floor = refl;
          rebuilds = refl;
          counted = refl;
          few = omega arith;
          small = omega arith;
        };
        valid = valid;
      })

module _ {V : Type 0} (size : SessionEventEnvelope V → Outcome String ℕ)
    (display : SessionProjectionError → String) where
  -- What a successful publication did.
  record Published (r : SessionViewRecord V) (payload : SessionEventPayload V)
      (r' : SessionViewRecord V) (e : SessionEventEnvelope V) : Type 0 where
    outcome : Bool
    bytes : ℕ
    next : checked_next r.snapshot.cursor ≡ ok e.cursor
    applied : apply_event r.snapshot e ≡ ok (r'.snapshot, outcome)
    retained :
        retain_prepared r.retained r.limits e bytes (some (event_turn_id payload))
        ≡ some r'.retained
    same_limits : r'.limits ≡ r.limits

  publish-Published :
      (r : SessionViewRecord V) (at : ℕ) (payload : SessionEventPayload V)
      (run_identity : Option (String × ℕ)) (r' : SessionViewRecord V) (e : SessionEventEnvelope V)
      → publish size display r at payload run_identity ≡ ok (r', e)
      → Published r payload r' e
  unfolding publish next_envelope
  publish-Published r at payload run_identity r' e h =
      elim (Outcome-split (checked_next r.snapshot.cursor)) [
        | inr (m, failed) ↦ absurd (ground arith)
        | inl (cursor, next) ↦
            let envelope = next_envelope r cursor at payload in
            elim (Outcome-split (apply_event r.snapshot envelope)) [
              | inr (m, failed) ↦ absurd (ground arith)
              | inl ((n, b), applied) ↦ elim (Outcome-split (size envelope)) [
                | inr (m, failed) ↦ absurd (ground arith)
                | inl (bytes, sized) ↦ record {
                  outcome = b;
                  bytes = bytes;
                  next = ground arith;
                  applied = ground arith;
                  retained = ground arith;
                  same_limits = ground arith;
                }
              ]
            ]
      ]

  -- Publishing an event on a sound record applies exactly the returned event to the record's
  -- snapshot and leaves a sound record: its snapshot is valid, and its journal is within its
  -- limits, counts its bytes, and leads from a snapshot at the replay floor to the current one.
  pub publish-Sound :
      (r : SessionViewRecord V) (at : ℕ) (payload : SessionEventPayload V)
      (run_identity : Option (String × ℕ)) (r' : SessionViewRecord V) (e : SessionEventEnvelope V)
      → Sound r
      → publish size display r at payload run_identity ≡ ok (r', e)
      → (apply_event r.snapshot e ≡ ok (r'.snapshot, true)) × Sound r'
  publish-Sound r at payload run_identity r' e sound h =
      let p = publish-Published r at payload run_identity r' e h in
      let next = p.next in
      let limits = p.same_limits in
      let kept = p.retained in
      let (valid_cursor, follows) = checked_next-result r.snapshot.cursor e.cursor next in
      elim (apply_event-result r.snapshot e r'.snapshot p.outcome p.applied) [
        | inl (same, ignored, behind) ↦ absurd (ground arith)
        | inr (outcome, applied) ↦
            let done : apply_event r.snapshot e ≡ ok (r'.snapshot, true) =
              rw (sym outcome) p.applied in
            let (state, retained, consistent) =
              retain-Consistent r.limits r.retained r.snapshot r'.snapshot e p.bytes
                (some (event_turn_id payload)) sound.retained done in
            let same_state : state ≡ r'.retained = ground arith in
            (
              done,
              record {
                retained =
                    subst (λ l. Consistent l r'.retained r'.snapshot) (sym limits)
                      (subst (λ j. Consistent r.limits j r'.snapshot) same_state consistent);
                valid = applied.valid_after;
              },
            )
      ]

-- Retiring a run of a sound record never fails, leaves the snapshot as it is, and leaves a sound
-- record: the rest of the journal leads from a snapshot at the new replay floor to the current
-- one.
pub retire_run-Sound :
    {V : Type 0} (r : SessionViewRecord V) (turn_id : String) (identity : ℕ)
    → Sound r
    → (r' : SessionViewRecord V) × (retired : Bool) × (retire_run r turn_id identity
        ≡ ok (r', retired))
      × (r'.snapshot ≡ r.snapshot)
      × Sound r'
unfolding retire_run
retire_run-Sound {V} r turn_id identity sound =
    let (state, scrubbed, consistent) =
      scrub-Consistent r.limits r.retained r.snapshot turn_id sound.retained in
    elim (Bool-cases (
      get r.run_identities turn_id != some identity
      || is_some_and r.snapshot.active_run (λ run. run.snapshot.turn_id == turn_id))) [
        | inl keep ↦ (r, false, ground arith, refl, sound)
        | inr retire ↦ (
          record r { retained = state; run_identities = remove r.run_identities turn_id },
          true,
          ground arith,
          refl,
          record { retained = consistent; valid = sound.valid },
        )
      ]
