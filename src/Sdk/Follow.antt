-- ===== src/Sdk/Follow.antt =====
-- `run_subscription_worker`: the replay at the start, then the live events, each either known
-- already, next, or the reason for another replay.
use whale_ai_sdk.Base.{
  ◌&&◌, ◌∷◌, Bool, List, Option, [], if◌then◌else◌, leb, none, some, ℕ, false, true,
}
use whale_ai_sdk.Base.Outcome.{Outcome, err, ok}
use whale_ai_sdk.Protocol.Views.Replay.{SubscribeSessionParams, SubscribeSessionResult}
use whale_ai_sdk.Protocol.Views.Types.{SessionEventEnvelope}
use whale_ai_sdk.Protocol.Views.Validate.{same_stream}
use whale_ai_sdk.Sdk.Subscription.{
  Paging, Server, SessionViewError, Signals, Worker, enqueue_event, is_next_cursor,
  replay_fixed_window,
}

-- What the worker's `select!` yields: a change of the termination, or what the hub sent.
pub data Received (V : Type 0) : Type 0 where
  terminated : Received V
  event : SessionEventEnvelope V → Received V
  lagged : Received V
  closed : Received V

-- How the worker goes on: it waits for more, asks for a replay, or has returned, with the error
-- that it sent last, if any.
pub data Progress : Type 0 where
  waits : Progress
  catches_up : Progress
  returned : Option SessionViewError → Progress

module _ {V : Type 0} where
  unfoldable pub on_received : Signals V → Worker V → Received V → Worker V × Progress
  on_received signals w terminated = (w, returned none)
  on_received signals w closed = (w, returned none)
  on_received signals w lagged = (w, catches_up)
  on_received signals w (event e) =
      if same_stream e.cursor w.last_enqueued && leb e.cursor.seq w.last_enqueued.seq
      then (w, waits)
      else if is_next_cursor w.last_enqueued e.cursor
      then (if signals.before_event e then (w, returned none) else (enqueue_event w e, waits))
      else (w, catches_up)

  -- The `match` on the result of a replay.
  unfoldable pub after_replay :
      Option (Worker V × Outcome SessionViewError Bool) → Option (Worker V × Progress)
  after_replay none = none
  after_replay (some (w, ok true)) = some (w, waits)
  after_replay (some (w, ok false)) = some (w, returned none)
  after_replay (some (w, err e)) = some (w, returned (some e))

  unfoldable pub caught_up :
      ℕ → Signals V → Paging → Server V → Worker V × Progress → Option (Worker V × Progress)
  caught_up fuel signals paging server (w, waits) = some (w, waits)
  caught_up fuel signals paging server (w, returned e) = some (w, returned e)
  caught_up fuel signals paging server (w, catches_up) =
      after_replay (replay_fixed_window fuel signals server paging w none)

  -- The `loop`, over what is received; with each, the server at that time.
  unfoldable pub follow :
      ℕ
      → Signals V
      → Paging
      → List (Received V × Server V)
      → Option (Worker V × Progress)
      → Option (Worker V × Progress)
  follow fuel signals paging [] state = state
  follow fuel signals paging ((received, server) ∷ rest) (some (w, waits)) =
      follow fuel signals paging rest
        (caught_up fuel signals paging server (on_received signals w received))
  follow fuel signals paging (received ∷ rest) state = state

  unfoldable pub run_subscription_worker :
      ℕ
      → Signals V
      → Paging
      → Server V
      → Worker V
      → Option (SubscribeSessionParams × SubscribeSessionResult V)
      → List (Received V × Server V)
      → Option (Worker V × Progress)
  run_subscription_worker fuel signals paging server w first_page received =
      follow fuel signals paging received
        (after_replay (replay_fixed_window fuel signals server paging w first_page))
