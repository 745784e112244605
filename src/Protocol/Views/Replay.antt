-- ===== src/Protocol/Views/Replay.antt =====
-- The replay of the events of a session: the request, the gap and the page of
-- crates/whale-protocol/src/session_views.rs, and the checks of a client.
use whale_ai_sdk.Base.{
  ◌!=◌, ◌==◌, ◌||◌, ◌∷◌, Bool, List, Option, String, [], bool_eq, false, leb, length, ltb, nat_eq,
  none, not, some, string_eq, true, ℕ,
}
use whale_ai_sdk.Base.Outcome.{Outcome, if_some, ok, refuse, ◌>>=◌, ◌>>◌}
use whale_ai_sdk.Protocol.Views.Types.{SessionCursor, SessionEventEnvelope, cursor_eq}
use whale_ai_sdk.Protocol.Views.Validate.{
  Checked, checked_next, same_stream, validate_cursor, validate_envelope,
}
use whale_ai_sdk.Protocol.Views.Window.{validate_history_capacity, validate_identity}

abbrev pub max_session_replay_page_limit : ℕ
max_session_replay_page_limit = 256

pub record GetSessionParams : Type 0 where
  pub thread_id : String
  pub history_limit : ℕ

pub record SubscribeSessionParams : Type 0 where
  pub thread_id : String
  pub after : SessionCursor
  pub through : Option SessionCursor
  pub limit : ℕ

pub data ReplayGapReason : Type 0 where
  retention stream_reset : ReplayGapReason

pub record ReplayGap : Type 0 where
  pub reason : ReplayGapReason
  pub requested : SessionCursor
  pub replay_floor : SessionCursor
  pub current : SessionCursor
  pub session_revision : ℕ

pub record SubscribeSessionResult (V : Type 0) : Type 0 where
  pub events : List (SessionEventEnvelope V)
  pub resume_after : SessionCursor
  pub through : SessionCursor
  pub has_more : Bool
  pub gap : Option ReplayGap

unfoldable pub validate_get : GetSessionParams → Checked
validate_get params = do
  validate_identity params.thread_id "thread_id"
  validate_history_capacity params.history_limit

unfoldable pub validate_subscribe : SubscribeSessionParams → Checked
validate_subscribe params = do
  validate_identity params.thread_id "thread_id"
  validate_cursor params.after
  refuse (params.after.thread_id != params.thread_id) "Replay cursor belongs to another thread"
  if_some params.through (λ through. do
    validate_cursor through
    refuse (not (same_stream params.after through))
        "Replay window cursors belong to different streams"
    refuse (ltb through.seq params.after.seq) "Replay cursor is ahead of the fixed replay window")
  refuse (params.limit == 0 || ltb max_session_replay_page_limit params.limit)
      "Replay page limit must be between 1 and 256"

unfoldable pub validate_gap_reason : ReplayGapReason → ReplayGap → Checked
validate_gap_reason retention g =
    refuse (not (same_stream g.requested g.current) || leb g.replay_floor.seq g.requested.seq)
      "Retention gap requires a cursor below the replay floor"
validate_gap_reason stream_reset g =
    refuse (g.requested.stream_id == g.current.stream_id)
      "Stream reset requires a different stream identity"

unfoldable pub validate_gap : ReplayGap → Checked
validate_gap g = do
  validate_cursor g.requested
  validate_cursor g.replay_floor
  validate_cursor g.current
  refuse (g.requested.thread_id != g.current.thread_id)
      "Replay gap cursors belong to different threads"
  refuse (not (same_stream g.replay_floor g.current) || ltb g.current.seq g.replay_floor.seq)
      "Replay floor is outside the current stream"
  validate_gap_reason g.reason g

-- The high watermark of a response with a gap.
unfoldable pub validate_gap_through :
    ReplayGapReason → Option SessionCursor → SessionCursor → SessionCursor → Checked
validate_gap_through retention (some fixed) through current =
    refuse (through != fixed) "Replay response changed the fixed high watermark"
validate_gap_through retention none through current =
    refuse (through != current) "Initial replay response did not freeze the current cursor"
validate_gap_through stream_reset fixed through current =
    refuse (through != current) "Stream-reset response must expose the new current cursor"

abbrev pub is_nil : {A : Type 0} → List A → Bool
is_nil [] = true
is_nil (x ∷ xs) = false

module _ {V : Type 0} where
  -- The loop over the events of a page: the cursor of the last one.
  unfoldable pub validate_events :
      SessionCursor → SessionCursor → List (SessionEventEnvelope V) → Outcome String SessionCursor
  validate_events through expected [] = ok expected
  validate_events through expected (event ∷ events) = do
    validate_envelope event
    next ← checked_next expected
    refuse (event.cursor != next || ltb through.seq event.cursor.seq)
        "Replay events must be contiguous and in Session cursor order"
    validate_events through next events

  unfoldable pub validate_gap_page :
      SubscribeSessionParams → SubscribeSessionResult V → ReplayGap → Checked
  validate_gap_page params r g = do
    validate_gap g
    refuse (g.requested != params.after) "Replay gap does not match the requested cursor"
    validate_gap_through g.reason params.through r.through g.current
    refuse (not (is_nil r.events) || (r.has_more || r.resume_after != params.after))
        "A replay gap cannot contain an applicable event page"

  unfoldable pub validate_event_page : SubscribeSessionParams → SubscribeSessionResult V → Checked
  validate_event_page params r = do
    if_some params.through
        (λ fixed. refuse (r.through != fixed) "Replay response changed the fixed high watermark")
    refuse (not (same_stream params.after r.through)) "A changed stream requires a stream_reset gap"
    refuse (ltb r.through.seq params.after.seq) "Replay cursor is ahead of the fixed high watermark"
    refuse (not (same_stream r.resume_after r.through))
        "Replay resume cursor belongs to another stream"
    refuse (ltb params.limit (length r.events)) "Replay page exceeds the requested limit"
    expected ← validate_events r.through params.after r.events
    refuse (r.resume_after != expected) "Replay resume cursor must identify the last returned event"
    refuse (r.has_more != ltb r.resume_after.seq r.through.seq)
        "Replay has_more does not match the high watermark"

  unfoldable pub validate_body :
      SubscribeSessionParams → SubscribeSessionResult V → Option ReplayGap → Checked
  validate_body params r (some g) = validate_gap_page params r g
  validate_body params r none = validate_event_page params r

  unfoldable pub validate_for : SubscribeSessionParams → SubscribeSessionResult V → Checked
  validate_for params r = do
    validate_subscribe params
    validate_cursor r.resume_after
    validate_cursor r.through
    refuse (r.resume_after.thread_id != params.thread_id || r.through.thread_id != params.thread_id)
        "Replay result belongs to another thread"
    validate_body params r r.gap
