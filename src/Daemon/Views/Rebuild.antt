-- ===== src/Daemon/Views/Rebuild.antt =====
-- What a journal keeps: the events that lead from a snapshot at the replay floor to the current one.
use whale_ai_sdk.Base.{
  ◌+◌, ◌++◌, ◌-◌, ◌∷◌, ◌≡◌, ◌≤◌, Bool-cases, List, Option, String, [], arith, length, ltb, refl,
  some, sym, true, ℕ, inl, inr, suc, ◌||◌, option_eq, string_eq, subst,
}
use whale_ai_sdk.Base.Outcome.{ok}
use whale_ai_sdk.Daemon.Views.Journal.{
  EventJournalLimits, JournalEntry, JournalState, evict, retain_prepared,
}
use whale_ai_sdk.Protocol.Views.Advance.{apply_event-Applied, checked_next-result}
use whale_ai_sdk.Protocol.Views.Apply.{apply_event}
use whale_ai_sdk.Protocol.Views.Types.{SessionCursor, SessionEventEnvelope, SessionSnapshot}

module _ {V : Type 0} where
  abbrev pub Rebuilds : SessionSnapshot V → List (JournalEntry V) → SessionSnapshot V → Type 0
  Rebuilds base [] current = base ≡ current
  Rebuilds base (entry ∷ entries) current =
      (next : SessionSnapshot V) × (apply_event base entry.envelope ≡ ok (next, true))
      × Rebuilds next entries current

  abbrev pub sum_bytes : List (JournalEntry V) → ℕ
  sum_bytes [] = 0
  sum_bytes (entry ∷ entries) = entry.bytes + sum_bytes entries

  pub record Consistent (limits : EventJournalLimits) (j : JournalState V)
      (current : SessionSnapshot V) : Type 0 where
    pub base : SessionSnapshot V
    pub at_floor : base.cursor ≡ j.replay_floor
    pub rebuilds : Rebuilds base j.journal current
    pub counted : j.journal_bytes ≡ sum_bytes j.journal
    pub few : length j.journal ≤ limits.max_events
    pub small : j.journal_bytes ≤ limits.max_bytes

  pub Rebuilds-append :
      (base : SessionSnapshot V) (entries : List (JournalEntry V))
      (current next : SessionSnapshot V) (entry : JournalEntry V)
      → Rebuilds base entries current
      → apply_event current entry.envelope ≡ ok (next, true)
      → Rebuilds base (entries ++ entry ∷ []) next
  Rebuilds-append base [] current next entry same h =
      (next, subst (λ s. apply_event s entry.envelope ≡ ok (next, true)) (sym same) h, refl)
  Rebuilds-append base (first ∷ entries) current next entry (middle, applied, rest) h =
      (middle, applied, Rebuilds-append middle entries current next entry rest h)

  sum_bytes-append :
      (entries : List (JournalEntry V)) (entry : JournalEntry V)
      → sum_bytes (entries ++ entry ∷ []) ≡ sum_bytes entries + entry.bytes
  sum_bytes-append [] entry = omega arith
  sum_bytes-append (first ∷ entries) entry = omega (arith, sum_bytes-append entries entry)

  pub step :
      (s : SessionSnapshot V) (e : SessionEventEnvelope V) (n : SessionSnapshot V)
      → apply_event s e ≡ ok (n, true)
      → (n.cursor ≡ e.cursor) × (e.cursor ≡ record s.cursor { seq = s.cursor.seq + 1 })
  step s e n h =
      let applied = apply_event-Applied s e n h in
      (applied.reached, (checked_next-result s.cursor e.cursor applied.consecutive).1)

  -- Eviction never fails, and leaves what the limits allow.
  evict-Consistent :
      (limits : EventJournalLimits) (entries : List (JournalEntry V)) (bytes : ℕ)
      (floor : SessionCursor) (base current : SessionSnapshot V)
      → base.cursor ≡ floor
      → Rebuilds base entries current
      → bytes ≡ sum_bytes entries
      → (state : JournalState V) × (evict limits entries bytes floor ≡ some state)
        × Consistent limits state current
  unfolding evict
  evict-Consistent limits [] bytes floor base current h same counted = (
    record { journal = []; journal_bytes = bytes; replay_floor = floor },
    ground arith,
    record {
      base = base;
      at_floor = h;
      rebuilds = same;
      counted = counted;
      few = omega arith;
      small = omega arith;
    },
  )
  evict-Consistent limits (entry ∷ entries) bytes floor base current h (next, applied, rest)
        counted =
      let reached = (step base entry.envelope next applied).0 in
      let counted' : bytes - entry.bytes ≡ sum_bytes entries = omega arith in
      let (state, evicted, sound) =
        evict-Consistent limits entries (bytes - entry.bytes) entry.envelope.cursor next current
          reached rest counted' in
      elim (Bool-cases
        (ltb limits.max_events (suc (length entries)) || ltb limits.max_bytes bytes)) [
          | inl full ↦ (state, ground arith, sound)
          | inr fits ↦ (
            record { journal = entry ∷ entries; journal_bytes = bytes; replay_floor = floor },
            ground arith,
            record {
              base = base;
              at_floor = h;
              rebuilds = (next, applied, rest);
              counted = counted;
              few = ground arith;
              small = ground arith;
            },
          )
        ]

  -- On a journal within its limits that leads from its replay floor to the current snapshot, keeping
  -- an event that applies to this snapshot never panics, whatever its size: the eviction loop never
  -- takes from an empty journal and never subtracts more bytes than it counted. What it leaves is
  -- within the limits on events and bytes and leads from its replay floor to the new snapshot.
  pub retain-Consistent :
      (limits : EventJournalLimits) (j : JournalState V) (current next : SessionSnapshot V)
      (envelope : SessionEventEnvelope V) (bytes : ℕ) (run_id : Option String)
      → Consistent limits j current
      → apply_event current envelope ≡ ok (next, true)
      → (state : JournalState V) × (retain_prepared j limits envelope bytes run_id ≡ some state)
        × Consistent limits state next
  unfolding retain_prepared
  retain-Consistent limits j current next envelope bytes run_id c h =
      let entry : JournalEntry V = record { envelope = envelope; bytes = bytes; run_id = run_id } in
      let counted = c.counted in
      let all_counted : j.journal_bytes + bytes ≡ sum_bytes (j.journal ++ entry ∷ []) =
        omega (arith, sum_bytes-append j.journal entry) in
      let (state, evicted, sound) =
        evict-Consistent limits (j.journal ++ entry ∷ []) (j.journal_bytes + bytes) j.replay_floor
          c.base next c.at_floor (Rebuilds-append c.base j.journal current next entry c.rebuilds h)
          all_counted in
      elim (Bool-cases (ltb limits.max_bytes bytes)) [
        | inl oversized ↦ (
          record { journal = []; journal_bytes = 0; replay_floor = envelope.cursor },
          ground arith,
          record {
            base = next;
            at_floor = (step current envelope next h).0;
            rebuilds = refl;
            counted = refl;
            few = omega arith;
            small = omega arith;
          },
        )
        | inr fits ↦ (state, ground arith, sound)
      ]
