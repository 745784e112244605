-- ===== src/Daemon/Views/Journal.antt =====
-- The bounded journal of a session's events, oldest first (`retain_prepared` and `scrub_run`).
-- `none` is a panic: an `expect` that fails, or a subtraction that underflows. The bytes of a journal
-- are counted without the bound of usize: the source's `*journal_bytes += bytes` adds one event to a
-- count within `max_bytes`, so it could overflow only for limits near the top of usize.
use whale_ai_sdk.Base.{
  ◌++◌, ◌+◌, ◌-◌, ◌==◌, ◌||◌, ◌∷◌, List, Option, String, [], if◌then◌else◌, leb, length, ltb, max,
  none, option_eq, some, string_eq, suc, ℕ,
}
use whale_ai_sdk.Protocol.Views.Types.{SessionCursor, SessionEventEnvelope}

pub record EventJournalLimits : Type 0 where
  pub max_events : ℕ
  pub max_bytes : ℕ

pub record JournalEntry (V : Type 0) : Type 0 where
  pub envelope : SessionEventEnvelope V
  pub bytes : ℕ
  pub run_id : Option String

-- The fields of a record that the two functions change.
pub record JournalState (V : Type 0) : Type 0 where
  pub journal : List (JournalEntry V)
  pub journal_bytes : ℕ
  pub replay_floor : SessionCursor

-- The larger of a sequence and that of the entries after it.
unfoldable pub larger : ℕ → Option ℕ → ℕ
larger seq none = seq
larger seq (some other) = max seq other

module _ {V : Type 0} where
  -- The `while` of `retain_prepared`.
  unfoldable pub evict :
      EventJournalLimits → List (JournalEntry V) → ℕ → SessionCursor → Option (JournalState V)
  evict limits [] bytes floor =
      if ltb limits.max_bytes bytes
      then none
      else some (record { journal = []; journal_bytes = bytes; replay_floor = floor })
  evict limits (entry ∷ entries) bytes floor =
      let rest = evict limits entries (bytes - entry.bytes) entry.envelope.cursor in
      if ltb limits.max_events (suc (length entries)) || ltb limits.max_bytes bytes
      then (if ltb bytes entry.bytes then none else rest)
      else some (record { journal = entry ∷ entries; journal_bytes = bytes; replay_floor = floor })

  unfoldable pub retain_prepared :
      JournalState V
      → EventJournalLimits
      → SessionEventEnvelope V
      → ℕ
      → Option String
      → Option (JournalState V)
  retain_prepared state limits envelope bytes run_id =
      if ltb limits.max_bytes bytes
      then some (record { journal = []; journal_bytes = 0; replay_floor = envelope.cursor })
      else evict limits
          (state.journal ++ record { envelope = envelope; bytes = bytes; run_id = run_id } ∷ [])
          (state.journal_bytes + bytes) state.replay_floor

  -- The largest sequence of the entries of a run.
  unfoldable pub last_of_run : String → List (JournalEntry V) → Option ℕ
  last_of_run turn_id [] = none
  last_of_run turn_id (entry ∷ entries) =
      let rest = last_of_run turn_id entries in
      if entry.run_id == some turn_id then some (larger entry.envelope.cursor.seq rest) else rest

  -- The `while` of `scrub_run`.
  unfoldable pub drop_through : ℕ → List (JournalEntry V) → ℕ → Option (List (JournalEntry V) × ℕ)
  drop_through through [] bytes = some ([], bytes)
  drop_through through (entry ∷ entries) bytes =
      let rest = drop_through through entries (bytes - entry.bytes) in
      if leb entry.envelope.cursor.seq through
      then (if ltb bytes entry.bytes then none else rest)
      else some (entry ∷ entries, bytes)

  unfoldable pub scrubbed :
      JournalState V → ℕ → Option (List (JournalEntry V) × ℕ) → Option (JournalState V)
  scrubbed state through none = none
  scrubbed state through (some (journal, bytes)) = some (record {
    journal = journal;
    journal_bytes = bytes;
    replay_floor = record state.replay_floor { seq = max state.replay_floor.seq through };
  })

  unfoldable pub scrub_from : JournalState V → Option ℕ → Option (JournalState V)
  scrub_from state none = some state
  scrub_from state (some through) =
      scrubbed state through (drop_through through state.journal state.journal_bytes)

  unfoldable pub scrub_run : JournalState V → String → Option (JournalState V)
  scrub_run state turn_id = scrub_from state (last_of_run turn_id state.journal)
