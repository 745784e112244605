-- ===== src/Daemon/Views/Walk.antt =====
-- Events of a journal, applied one after the other to a projection and checked as a page.
use whale_ai_sdk.Base.{
  ◌+◌, ◌++◌, inl, inr, ◌∷◌, ◌≡◌, ◌≤◌, List, [], arith, drop, length, min, refl, suc, take, zero, ℕ,
}
use whale_ai_sdk.Base.Outcome.{Outcome, Outcome-split, ok, ◌>>=◌}
use whale_ai_sdk.Daemon.Views.Journal.{JournalEntry}
use whale_ai_sdk.Daemon.Views.Rebuild.{Rebuilds, step}
use whale_ai_sdk.Daemon.Views.Records.{last_cursor}
use whale_ai_sdk.Protocol.Views.Advance.{apply_event-Applied}
use whale_ai_sdk.Protocol.Views.Apply.{apply_event}
use whale_ai_sdk.Protocol.Views.Replay.{validate_events}
use whale_ai_sdk.Protocol.Views.Types.{
  SessionCursor, SessionEventEnvelope, SessionProjectionError, SessionSnapshot, cursor_eq,
}

module _ {V : Type 0} where
  abbrev pub envelopes : List (JournalEntry V) → List (SessionEventEnvelope V)
  envelopes [] = []
  envelopes (entry ∷ entries) = entry.envelope ∷ envelopes entries

  -- A projection after the events of a page.
  unfoldable pub apply_events :
      SessionSnapshot V
      → List (SessionEventEnvelope V)
      → Outcome SessionProjectionError (SessionSnapshot V)
  apply_events s [] = ok s
  apply_events s (event ∷ events) = do applied ← apply_event s event; apply_events applied.0 events

  pub apply_events-append :
      (s : SessionSnapshot V) (xs ys : List (SessionEventEnvelope V)) (n : SessionSnapshot V)
      → apply_events s xs ≡ ok n
      → apply_events s (xs ++ ys) ≡ apply_events n ys
  unfolding apply_events
  apply_events-append s [] ys n h = ground arith
  apply_events-append s (x ∷ xs) ys n h = elim (Outcome-split (apply_event s x)) [
    | inr (m, failed) ↦ absurd (ground arith)
    | inl (applied, done) ↦
        let later = apply_events-append applied.0 xs ys n (ground arith) in ground arith
  ]

  pub record Walk (m : ℕ) (c : SessionSnapshot V) (post : List (JournalEntry V))
      (current : SessionSnapshot V) : Type 0 where
    pub end : SessionSnapshot V
    pub rest : Rebuilds end (drop m post) current
    pub applied : apply_events c (take m (envelopes post)) ≡ ok end
    pub last : last_cursor c.cursor (take m (envelopes post)) ≡ end.cursor
    pub place : end.cursor ≡ record c.cursor { seq = c.cursor.seq + min m (length post) }
    pub checked :
        (through : SessionCursor)
        → c.cursor.seq + m ≤ through.seq
        → validate_events through c.cursor (take m (envelopes post)) ≡ ok end.cursor

  pub walk :
      (m : ℕ) (c : SessionSnapshot V) (post : List (JournalEntry V)) (current : SessionSnapshot V)
      → Rebuilds c post current
      → Walk m c post current
  unfolding apply_events last_cursor validate_events
  walk zero c post current h = record {
    end = c;
    rest = h;
    applied = refl;
    last = refl;
    place = ground arith;
    checked = λ through le. refl;
  }
  walk (suc m) c [] current h = record {
    end = c;
    rest = h;
    applied = refl;
    last = refl;
    place = ground arith;
    checked = λ through le. refl;
  }
  walk (suc m) c (entry ∷ post) current (next, h, rest) =
      let (reached, follows) = step c entry.envelope next h in
      let now = apply_event-Applied c entry.envelope next h in
      let valid = now.valid_event in
      let consecutive = now.consecutive in
      let w = walk m next post current rest in
      let applied = w.applied in
      let last = w.last in
      let place = w.place in
      record {
        end = w.end;
        rest = w.rest;
        applied = ground arith;
        last = ground arith;
        place = ground arith;
        checked = λ through le. let checked = w.checked through (ground arith) in ground arith;
      }
