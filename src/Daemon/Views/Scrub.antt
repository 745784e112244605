-- ===== src/Daemon/Views/Scrub.antt =====
-- Retiring a run: the entries up to its last one leave the journal.
use whale_ai_sdk.Base.{
  ◌-◌, ◌∷◌, ◌≡◌, ◌≤◌, Bool-cases, List, Option-cases, String, [], ap, arith, leb, length, max,
  option_eq, refl, some, string_eq, ℕ, inl, inr,
}
use whale_ai_sdk.Daemon.Views.Journal.{
  EventJournalLimits, JournalEntry, JournalState, drop_through, larger, last_of_run, scrub_from,
  scrub_run, scrubbed,
}
use whale_ai_sdk.Daemon.Views.Rebuild.{Consistent, Rebuilds, step, sum_bytes}
use whale_ai_sdk.Protocol.Views.Types.{SessionSnapshot}

module _ {V : Type 0} where
  pub Rebuilds-seq :
      (base : SessionSnapshot V) (entries : List (JournalEntry V)) (current : SessionSnapshot V)
      → Rebuilds base entries current
      → base.cursor.seq ≤ current.cursor.seq
  Rebuilds-seq base [] current same = let h = ap (λ s. s.cursor.seq) same in omega arith
  Rebuilds-seq base (entry ∷ entries) current (next, applied, rest) =
      let (reached, follows) = step base entry.envelope next applied in
      let later = Rebuilds-seq next entries current rest in ground arith

  last_of_run-bounds :
      (turn_id : String) (base : SessionSnapshot V) (entries : List (JournalEntry V))
      (current : SessionSnapshot V) (t : ℕ)
      → Rebuilds base entries current
      → last_of_run turn_id entries ≡ some t
      → (base.cursor.seq ≤ t) × (t ≤ current.cursor.seq)
  unfolding last_of_run larger
  last_of_run-bounds turn_id base [] current t same h = absurd (ground arith)
  last_of_run-bounds turn_id base (entry ∷ entries) current t (next, applied, rest) h =
      let (reached, follows) = step base entry.envelope next applied in
      let later = Rebuilds-seq next entries current rest in
      elim (Option-cases (last_of_run turn_id entries)) [
        | inl nothing ↦ ground arith
        | inr (u, found) ↦
            let bounds = last_of_run-bounds turn_id next entries current u rest found in
            ground arith
      ]

  record Dropped (t : ℕ) (entries : List (JournalEntry V)) (bytes : ℕ)
      (base current : SessionSnapshot V) : Type 0 where
    left : List (JournalEntry V)
    left_bytes : ℕ
    start : SessionSnapshot V
    result : drop_through t entries bytes ≡ some (left, left_bytes)
    rebuilds : Rebuilds start left current
    counted : left_bytes ≡ sum_bytes left
    at : start.cursor ≡ record base.cursor { seq = t }
    few : length left ≤ length entries
    small : left_bytes ≤ bytes

  drop_through-Dropped :
      (t : ℕ) (entries : List (JournalEntry V)) (bytes : ℕ) (base current : SessionSnapshot V)
      → Rebuilds base entries current
      → bytes ≡ sum_bytes entries
      → base.cursor.seq ≤ t
      → t ≤ current.cursor.seq
      → Dropped t entries bytes base current
  unfolding drop_through
  drop_through-Dropped t [] bytes base current same counted lo hi =
      let h = ap (λ s. s.cursor.seq) same in
      let exact : t ≡ base.cursor.seq = omega arith in
      record {
        left = [];
        left_bytes = bytes;
        start = base;
        result = refl;
        rebuilds = same;
        counted = counted;
        at = ground arith;
        few = omega arith;
        small = omega arith;
      }
  drop_through-Dropped t (entry ∷ entries) bytes base current (next, applied, rest) counted lo hi =
      let (reached, follows) = step base entry.envelope next applied in
      elim (Bool-cases (leb entry.envelope.cursor.seq t)) [
        | inl old ↦
            let d =
              drop_through-Dropped t entries (bytes - entry.bytes) next current rest (omega arith)
                ground arith hi in
            let result = d.result in
            record {
              left = d.left;
              left_bytes = d.left_bytes;
              start = d.start;
              result = ground arith;
              rebuilds = d.rebuilds;
              counted = d.counted;
              at = ground arith;
              few = ground arith;
              small = ground arith;
            }
        | inr kept ↦ record {
          left = entry ∷ entries;
          left_bytes = bytes;
          start = base;
          result = ground arith;
          rebuilds = (next, applied, rest);
          counted = counted;
          at = ground arith;
          few = omega arith;
          small = omega arith;
        }
      ]

  pub scrub-Consistent :
      (limits : EventJournalLimits) (j : JournalState V) (current : SessionSnapshot V)
      (turn_id : String)
      → Consistent limits j current
      → (state : JournalState V) × (scrub_run j turn_id ≡ some state)
        × Consistent limits state current
  unfolding scrub_run scrub_from scrubbed
  scrub-Consistent limits j current turn_id c =
      elim (Option-cases (last_of_run turn_id j.journal)) [
        | inl nothing ↦ (j, ground arith, c)
        | inr (t, found) ↦
            let at_floor = c.at_floor in
            let few = c.few in
            let small = c.small in
            let (lo, hi) = last_of_run-bounds turn_id c.base j.journal current t c.rebuilds found in
            let d =
              drop_through-Dropped t j.journal j.journal_bytes c.base current c.rebuilds c.counted
                lo hi in
            let result = d.result in
            let at = d.at in
            let few' = d.few in
            let small' = d.small in
            (
              record {
                journal = d.left;
                journal_bytes = d.left_bytes;
                replay_floor = record j.replay_floor { seq = max j.replay_floor.seq t };
              },
              ground arith,
              record {
                base = d.start;
                at_floor = ground arith;
                rebuilds = d.rebuilds;
                counted = d.counted;
                few = omega arith;
                small = omega arith;
              },
            )
      ]
