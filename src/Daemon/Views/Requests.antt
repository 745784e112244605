-- ===== src/Daemon/Views/Requests.antt =====
-- What a valid request fixes, and where the floor of a sound record stands.
use whale_ai_sdk.Base.{◌∷◌, ◌≡◌, ◌≤◌, List, [], ap, arith, nat_eq, some, string_eq, bool_eq}
use whale_ai_sdk.Base.Outcome.{ok}
use whale_ai_sdk.Daemon.Views.Journal.{JournalEntry}
use whale_ai_sdk.Daemon.Views.Rebuild.{Rebuilds, step}
use whale_ai_sdk.Daemon.Views.Records.{SessionViewRecord}
use whale_ai_sdk.Daemon.Views.Scrub.{Rebuilds-seq}
use whale_ai_sdk.Daemon.Views.Sound.{Sound}
use whale_ai_sdk.Protocol.Views.Replay.{SubscribeSessionParams, validate_subscribe}
use whale_ai_sdk.Protocol.Views.Types.{SessionCursor, SessionSnapshot, cursor_eq}
use whale_ai_sdk.Protocol.Views.Validate.{same_stream, validate_cursor, validate_snapshot}

-- What a valid request fixes.
pub record Requested (params : SubscribeSessionParams) : Type 0 where
  pub after : validate_cursor params.after ≡ ok tt
  pub thread : params.after.thread_id ≡ params.thread_id

pub validate_subscribe-Requested :
    (params : SubscribeSessionParams) → validate_subscribe params ≡ ok tt → Requested params
unfolding validate_subscribe
validate_subscribe-Requested params h = record { after = ground arith; thread = ground arith }

pub validate_subscribe-fixed :
    (params : SubscribeSessionParams) (fixed : SessionCursor)
    → validate_subscribe params ≡ ok tt
    → params.through ≡ some fixed
    → (validate_cursor fixed ≡ ok tt)
      × (params.after.thread_id ≡ fixed.thread_id)
      × (params.after.stream_id ≡ fixed.stream_id)
      × (params.after.seq ≤ fixed.seq)
unfolding validate_subscribe same_stream
validate_subscribe-fixed params fixed h through = ground arith

pub validate_cursor-same :
    (c d : SessionCursor)
    → c.thread_id ≡ d.thread_id
    → c.stream_id ≡ d.stream_id
    → validate_cursor d ≡ ok tt
    → validate_cursor c ≡ ok tt
unfolding validate_cursor
validate_cursor-same c d thread stream h = rw (thread, stream) h

module _ {V : Type 0} where
  pub Rebuilds-stream :
      (base : SessionSnapshot V) (entries : List (JournalEntry V)) (current : SessionSnapshot V)
      → Rebuilds base entries current
      → (base.cursor.thread_id ≡ current.cursor.thread_id)
        × (base.cursor.stream_id ≡ current.cursor.stream_id)
  Rebuilds-stream base [] current same =
      (ap (λ s. s.cursor.thread_id) same, ap (λ s. s.cursor.stream_id) same)
  Rebuilds-stream base (entry ∷ entries) current (next, applied, rest) =
      let (reached, follows) = step base entry.envelope next applied in
      let later = Rebuilds-stream next entries current rest in ground arith

  pub snapshot-cursor :
      (s : SessionSnapshot V) → validate_snapshot s ≡ ok tt → validate_cursor s.cursor ≡ ok tt
  unfolding validate_snapshot
  snapshot-cursor s h = ground arith

  -- The floor of a sound record is a cursor of its stream, at or before the current one.
  pub record Floored (r : SessionViewRecord V) : Type 0 where
    pub thread : r.retained.replay_floor.thread_id ≡ r.snapshot.cursor.thread_id
    pub stream : r.retained.replay_floor.stream_id ≡ r.snapshot.cursor.stream_id
    pub before : r.retained.replay_floor.seq ≤ r.snapshot.cursor.seq
    pub floor : validate_cursor r.retained.replay_floor ≡ ok tt
    pub current : validate_cursor r.snapshot.cursor ≡ ok tt

  pub Sound-Floored : (r : SessionViewRecord V) → Sound r → Floored r
  Sound-Floored r sound =
      let c = sound.retained in
      let at_floor = c.at_floor in
      let (thread, stream) = Rebuilds-stream c.base r.retained.journal r.snapshot c.rebuilds in
      let seq = Rebuilds-seq c.base r.retained.journal r.snapshot c.rebuilds in
      let valid = snapshot-cursor r.snapshot sound.valid in
      let thread' : r.retained.replay_floor.thread_id ≡ r.snapshot.cursor.thread_id =
        ground arith in
      let stream' : r.retained.replay_floor.stream_id ≡ r.snapshot.cursor.stream_id =
        ground arith in
      record {
        thread = thread';
        stream = stream';
        before = ground arith;
        floor =
            validate_cursor-same r.retained.replay_floor r.snapshot.cursor thread' stream' valid;
        current = valid;
      }
