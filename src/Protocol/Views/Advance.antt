-- ===== src/Protocol/Views/Advance.antt =====
-- What one application of an event does to the projection of a session.
use whale_ai_sdk.Base.{◌≡◌, ◌≤◌, Bool, arith, false, true, ◌⊎◌, inl, inr, nat_eq, string_eq, ◌+◌}
use whale_ai_sdk.Base.Outcome.{ok}
use whale_ai_sdk.Protocol.Views.Apply.{advance, apply_event, apply_next}
use whale_ai_sdk.Protocol.Views.Types.{
  SessionCursor, SessionEventEnvelope, SessionSnapshot, cursor_eq,
}
use whale_ai_sdk.Protocol.Views.Validate.{
  checked_next, validate_cursor, validate_envelope, validate_snapshot,
}

pub checked_next-result :
    (c d : SessionCursor)
    → checked_next c ≡ ok d
    → (validate_cursor c ≡ ok tt) × ((d ≡ record c { seq = c.seq + 1 }))
unfolding checked_next
checked_next-result c d h = ground arith

module _ {V : Type 0} where
  -- What holds when an event was applied.
  pub record Applied (s : SessionSnapshot V) (e : SessionEventEnvelope V) (n : SessionSnapshot V)
      : Type 0 where
    pub consecutive : checked_next s.cursor ≡ ok e.cursor
    pub reached : n.cursor ≡ e.cursor
    pub valid_before : validate_snapshot s ≡ ok tt
    pub valid_event : validate_envelope e ≡ ok tt
    pub valid_after : validate_snapshot n ≡ ok tt

  next-Applied :
      (s : SessionSnapshot V) (e : SessionEventEnvelope V) (n : SessionSnapshot V) (b : Bool)
      → apply_next s e ≡ ok (n, b)
      → (b ≡ true)
        × (checked_next s.cursor ≡ ok e.cursor)
        × (n.cursor ≡ e.cursor)
        × (validate_snapshot n ≡ ok tt)
  unfolding apply_next advance
  next-Applied s e n b h = ground arith

  event-split :
      (s : SessionSnapshot V) (e : SessionEventEnvelope V) (n : SessionSnapshot V) (b : Bool)
      → apply_event s e ≡ ok (n, b)
      → (validate_snapshot s ≡ ok tt)
        × (validate_envelope e ≡ ok tt)
        × (((n ≡ s) × (b ≡ false) × (e.cursor.seq ≤ s.cursor.seq)) ⊎ (apply_next s e ≡ ok (n, b)))
  unfolding apply_event
  event-split s e n b h = ground arith

  -- When a projection answers an event without an error, either it is unchanged, says so, and the
  -- event is not ahead of it; or it says that it applied the event, the event has the cursor right
  -- after its own, the new projection stands at that cursor, and both projections and the event
  -- are valid.
  pub apply_event-result :
      (s : SessionSnapshot V) (e : SessionEventEnvelope V) (n : SessionSnapshot V) (b : Bool)
      → apply_event s e ≡ ok (n, b)
      → ((n ≡ s) × (b ≡ false) × (e.cursor.seq ≤ s.cursor.seq)) ⊎ ((b ≡ true) × Applied s e n)
  apply_event-result s e n b h =
      let (before, event, outcome) = event-split s e n b h in
      elim outcome [
        | inl same ↦ inl same
        | inr applied ↦
            let (really, consecutive, reached, after) = next-Applied s e n b applied in
            inr (
              really,
              record {
                consecutive = consecutive;
                reached = reached;
                valid_before = before;
                valid_event = event;
                valid_after = after;
              },
            )
      ]

  pub apply_event-Applied :
      (s : SessionSnapshot V) (e : SessionEventEnvelope V) (n : SessionSnapshot V)
      → apply_event s e ≡ ok (n, true)
      → Applied s e n
  apply_event-Applied s e n h = elim (apply_event-result s e n true h) [
    | inl (same, untrue, le) ↦ absurd (ground arith)
    | inr (really, applied) ↦ applied
  ]

  pub snapshot-Aligned :
      (s : SessionSnapshot V)
      → validate_snapshot s ≡ ok tt
      → (s.summary.thread_id ≡ s.cursor.thread_id) × (s.summary.revision ≡ s.cursor.seq)
  unfolding validate_snapshot
  snapshot-Aligned s h = ground arith

  pub envelope-Aligned :
      (e : SessionEventEnvelope V)
      → validate_envelope e ≡ ok tt
      → (e.cursor.thread_id ≡ e.thread_id) × (validate_cursor e.cursor ≡ ok tt)
  unfolding validate_envelope
  envelope-Aligned e h = ground arith

  -- An event that was applied is ignored when it arrives again.
  pub apply_event-twice :
      (s : SessionSnapshot V) (e : SessionEventEnvelope V) (n : SessionSnapshot V)
      → apply_event s e ≡ ok (n, true)
      → apply_event n e ≡ ok (n, false)
  unfolding apply_event
  apply_event-twice s e n h =
      let applied = apply_event-Applied s e n h in
      let before = applied.valid_after in
      let event = applied.valid_event in
      let reached = applied.reached in
      let aligned = snapshot-Aligned n before in
      let thread = envelope-Aligned e event in ground arith
