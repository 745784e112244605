-- ===== src/Sdk/Subscription.antt =====
-- crates/whale-sdk-rust/src/session_views.rs: the worker that replays the events of a session, page
-- by page, and then follows the live ones. A server is a function from a request to its answer,
-- whose error is the message of an `INVALID_PARAMS`; other failures of the connection are left out,
-- and the message on an event out of order ends before the number it shows.
use whale_ai_sdk.Base.{
  ◌&&◌, ◌++◌, ◌==◌, ◌∷◌, Bool, List, Option, String, [], checked_add, false, if◌then◌else◌,
  is_some_and, nat_eq, none, not, some, suc, true, zero, ℕ, string_eq,
}
use whale_ai_sdk.Base.Outcome.{Outcome, err, map_err, ok, refuse, ◌>>=◌, ◌>>◌}
use whale_ai_sdk.Protocol.Views.Replay.{
  ReplayGap, SubscribeSessionParams, SubscribeSessionResult, validate_for,
}
use whale_ai_sdk.Protocol.Views.Types.{SessionCursor, SessionEventEnvelope, cursor_eq}
use whale_ai_sdk.Protocol.Views.Validate.{same_stream}

pub data SessionViewError : Type 0 where
  invalid_cursor : String → SessionViewError
  resync_required : ReplayGap → SessionViewError
  invalid_projection : String → SessionViewError

abbrev pub Server : Type 0 → Type 0
Server V = SubscribeSessionParams → Outcome String (SubscribeSessionResult V)

-- When the session's termination, or the end of the receiver, interrupts the worker.
pub record Signals (V : Type 0) : Type 0 where
  pub before_page : SubscribeSessionParams → Bool
  pub before_event : SessionEventEnvelope V → Bool

-- The position of the worker, and what it has sent to the stream.
pub record Worker (V : Type 0) : Type 0 where
  pub last_enqueued : SessionCursor
  pub output : List (SessionEventEnvelope V)

unfoldable pub is_next_cursor : SessionCursor → SessionCursor → Bool
is_next_cursor previous next =
    same_stream previous next
    && is_some_and (checked_add previous.seq 1) (λ expected. expected == next.seq)

unfoldable pub refuse_gap : Option ReplayGap → Outcome SessionViewError (Unit {0})
refuse_gap none = ok tt
refuse_gap (some gap) = err (resync_required gap)

-- How the loop over the pages goes on after one of them.
pub data Continuation (V : Type 0) : Type 0 where
  done : Outcome SessionViewError Bool → Continuation V
  again : SubscribeSessionParams → SubscribeSessionResult V → Continuation V

-- The arguments of `replay_fixed_window` that each request repeats.
pub record Paging : Type 0 where
  pub thread_id : String
  pub page_size : ℕ

module _ {V : Type 0} where
  unfoldable pub get_session_replay_page :
      Server V → SubscribeSessionParams → Outcome SessionViewError (SubscribeSessionResult V)
  get_session_replay_page server params = do
    result ← map_err invalid_cursor (server params)
    map_err invalid_projection (validate_for params result)
    ok result

  unfoldable pub request_replay_page :
      Signals V
      → Server V
      → SubscribeSessionParams
      → Outcome SessionViewError (Option (SubscribeSessionResult V))
  request_replay_page signals server params =
      if signals.before_page params
      then ok none
      else (do page ← get_session_replay_page server params; ok (some page))

  unfoldable pub enqueue_event : Worker V → SessionEventEnvelope V → Worker V
  enqueue_event w event = record { last_enqueued = event.cursor; output = w.output ++ event ∷ [] }

  -- The `for` over the events of a page; `ok false` when a signal interrupts it.
  unfoldable pub enqueue_page :
      Signals V
      → Worker V
      → List (SessionEventEnvelope V)
      → Worker V × Outcome SessionViewError Bool
  enqueue_page signals w [] = (w, ok true)
  enqueue_page signals w (event ∷ events) =
      let rest = enqueue_page signals (enqueue_event w event) events in
      if not (is_next_cursor w.last_enqueued event.cursor)
      then (w, err (invalid_projection "Replay event is not contiguous after Session cursor"))
      else if signals.before_event event
      then (w, ok false)
      else rest

  unfoldable pub check_page :
      SubscribeSessionParams → SubscribeSessionResult V → Outcome SessionViewError (Unit {0})
  check_page params page = do
    map_err invalid_projection (validate_for params page)
    refuse_gap page.gap
    refuse (page.has_more && page.resume_after == params.after)
        (invalid_projection "Replay page claimed more events without advancing its cursor")

  unfoldable pub next_params : Paging → SubscribeSessionResult V → SubscribeSessionParams
  next_params paging page = record {
    thread_id = paging.thread_id;
    after = page.resume_after;
    through = some page.through;
    limit = paging.page_size;
  }

  unfoldable pub requested :
      SubscribeSessionParams
      → Outcome SessionViewError (Option (SubscribeSessionResult V))
      → Continuation V
  requested params (err e) = done (err e)
  requested params (ok none) = done (ok false)
  requested params (ok (some page)) = again params page

  unfoldable pub after_page :
      Signals V
      → Server V
      → Paging
      → SubscribeSessionResult V
      → Outcome SessionViewError Bool
      → Continuation V
  after_page signals server paging page (err e) = done (err e)
  after_page signals server paging page (ok false) = done (ok false)
  after_page signals server paging page (ok true) =
      if not page.has_more
      then done (ok true)
      else requested (next_params paging page)
          (request_replay_page signals server (next_params paging page))

  -- One pass of the `loop`.
  unfoldable pub page_step :
      Signals V
      → Server V
      → Paging
      → Worker V
      → SubscribeSessionParams
      → SubscribeSessionResult V
      → Outcome SessionViewError (Unit {0})
      → Worker V × Continuation V
  page_step signals server paging w params page (err e) = (w, done (err e))
  page_step signals server paging w params page (ok checked) =
      let sent = enqueue_page signals w page.events in
      (sent.0, after_page signals server paging page sent.1)

  -- The `loop` on fuel; `none` when that runs out.
  unfoldable pub replay_pages :
      ℕ
      → Signals V
      → Server V
      → Paging
      → Worker V
      → SubscribeSessionParams
      → SubscribeSessionResult V
      → Option (Worker V × Outcome SessionViewError Bool)
  replay_pages zero signals server paging w params page = none
  replay_pages (suc fuel) signals server paging w params page =
      let pass = page_step signals server paging w params page (check_page params page) in
      elim pass.1 [
        | done outcome ↦ some (pass.0, outcome)
        | again later next ↦ replay_pages fuel signals server paging pass.0 later next
      ]

  unfoldable pub replay_first :
      ℕ
      → Signals V
      → Server V
      → Paging
      → Worker V
      → SubscribeSessionParams
      → Outcome SessionViewError (Option (SubscribeSessionResult V))
      → Option (Worker V × Outcome SessionViewError Bool)
  replay_first fuel signals server paging w params (err e) = some (w, err e)
  replay_first fuel signals server paging w params (ok none) = some (w, ok false)
  replay_first fuel signals server paging w params (ok (some page)) =
      replay_pages fuel signals server paging w params page

  unfoldable pub replay_fixed_window :
      ℕ
      → Signals V
      → Server V
      → Paging
      → Worker V
      → Option (SubscribeSessionParams × SubscribeSessionResult V)
      → Option (Worker V × Outcome SessionViewError Bool)
  replay_fixed_window fuel signals server paging w (some (params, page)) =
      replay_pages fuel signals server paging w params page
  replay_fixed_window fuel signals server paging w none =
      let params : SubscribeSessionParams = record {
        thread_id = paging.thread_id;
        after = w.last_enqueued;
        through = none;
        limit = paging.page_size;
      } in
      replay_first fuel signals server paging w params (request_replay_page signals server params)
