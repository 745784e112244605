-- ===== src/Sdk/Contiguous.antt =====
-- What the worker of a subscription sends over its whole run.
use whale_ai_sdk.Base.{
  ◌∷◌, ◌≡◌, Bool, Bool-cases, List, Option, Option-cases, [], arith, ap, none, some, sym, true,
  false, ℕ, ◌∙◌, inl, inr, ◌&&◌, leb, subst,
}
use whale_ai_sdk.Base.Outcome.{Outcome, err, ok}
use whale_ai_sdk.Protocol.Views.Replay.{SubscribeSessionParams, SubscribeSessionResult}
use whale_ai_sdk.Protocol.Views.Types.{SessionCursor}
use whale_ai_sdk.Protocol.Views.Validate.{same_stream}
use whale_ai_sdk.Sdk.Follow.{
  Progress, Received, after_replay, catches_up, caught_up, closed, event, follow, lagged,
  on_received, returned, run_subscription_worker, terminated, waits,
}
use whale_ai_sdk.Sdk.Subscription.{
  Paging, Server, SessionViewError, Signals, Worker, is_next_cursor, replay_fixed_window,
}
use whale_ai_sdk.Sdk.Sent.{Consecutive, Sent, both, nothing, one, replay_fixed_window-Sent}

module _ {V : Type 0} where
  after_replay-worker :
      (v : Worker V) (outcome : Outcome SessionViewError Bool) (w' : Worker V) (progress : Progress)
      → after_replay (some (v, outcome)) ≡ some (w', progress)
      → v ≡ w'
  unfolding after_replay
  after_replay-worker v (ok true) w' progress h = ground arith
  after_replay-worker v (ok false) w' progress h = ground arith
  after_replay-worker v (err e) w' progress h = ground arith

  module _ (signals : Signals V) where
    after_replay-Sent :
        (fuel : ℕ) (server : Server V) (paging : Paging) (w : Worker V)
        (first : Option (SubscribeSessionParams × SubscribeSessionResult V)) (w' : Worker V)
        (progress : Progress)
        → after_replay (replay_fixed_window fuel signals server paging w first)
          ≡ some (w', progress)
        → Sent w w'
    unfolding after_replay
    after_replay-Sent fuel server paging w first w' progress h =
        elim (Option-cases (replay_fixed_window fuel signals server paging w first)) [
          | inl out ↦ absurd (ground arith)
          | inr ((v, outcome), ran) ↦
              subst (λ u. Sent w u)
                (after_replay-worker v outcome w' progress (sym (ap (λ x. after_replay x) ran) ∙ h))
                (replay_fixed_window-Sent signals fuel server paging w first v outcome ran)
        ]

    on_received-Sent : (w : Worker V) (r : Received V) → Sent w (on_received signals w r).0
    unfolding on_received
    on_received-Sent w terminated = nothing w
    on_received-Sent w closed = nothing w
    on_received-Sent w lagged = nothing w
    on_received-Sent w (event e) =
        elim (Bool-cases
          (same_stream e.cursor w.last_enqueued && leb e.cursor.seq w.last_enqueued.seq)) [
            | inl known ↦ rw known (nothing w)
            | inr ahead ↦ elim (Bool-cases (is_next_cursor w.last_enqueued e.cursor)) [
              | inr other ↦ rw (ahead, other) (nothing w)
              | inl next ↦ elim (Bool-cases (signals.before_event e)) [
                | inl stop ↦ rw (ahead, next, stop) (nothing w)
                | inr go ↦ rw (ahead, next, go) (one w e next)
              ]
            ]
          ]

    follow-out :
        (fuel : ℕ) (paging : Paging) (received : List (Received V × Server V))
        (state : Worker V × Progress)
        → follow fuel signals paging received none ≡ some state
        → ⊥
    unfolding follow
    follow-out fuel paging [] state h = ground arith
    follow-out fuel paging (r ∷ rest) state h = ground arith

    caught_up-Sent :
        (fuel : ℕ) (paging : Paging) (server : Server V) (w : Worker V) (progress : Progress)
        (w' : Worker V) (progress' : Progress)
        → caught_up fuel signals paging server (w, progress) ≡ some (w', progress')
        → Sent w w'
    unfolding caught_up
    caught_up-Sent fuel paging server w waits w' progress' h =
        subst (λ v. Sent w v) (ground arith) (nothing w)
    caught_up-Sent fuel paging server w (returned e) w' progress' h =
        subst (λ v. Sent w v) (ground arith) (nothing w)
    caught_up-Sent fuel paging server w catches_up w' progress' h =
        after_replay-Sent fuel server paging w none w' progress' h

    follow-Sent :
        (fuel : ℕ) (paging : Paging) (received : List (Received V × Server V)) (w : Worker V)
        (progress : Progress) (w' : Worker V) (progress' : Progress)
        → follow fuel signals paging received (some (w, progress)) ≡ some (w', progress')
        → Sent w w'
    unfolding follow
    follow-Sent fuel paging [] w progress w' progress' h =
        subst (λ v. Sent w v) (ground arith) (nothing w)
    follow-Sent fuel paging ((r, server) ∷ rest) w waits w' progress' h =
        let (v, p) = on_received signals w r in
        let sent = on_received-Sent w r in
        elim (Option-cases (caught_up fuel signals paging server (on_received signals w r))) [
          | inl out ↦ absurd (
              follow-out fuel paging rest (w', progress')
                (sym (ap (λ x. follow fuel signals paging rest x) out) ∙ h))
          | inr ((u, q), caught) ↦ both w v w' sent (
              both v u w' (caught_up-Sent fuel paging server v p u q caught) (
                follow-Sent fuel paging rest u q w' progress'
                  (sym (ap (λ x. follow fuel signals paging rest x) caught) ∙ h)))
        ]
    follow-Sent fuel paging (r ∷ rest) w catches_up w' progress' h =
        subst (λ v. Sent w v) (ground arith) (nothing w)
    follow-Sent fuel paging (r ∷ rest) w (returned e) w' progress' h =
        subst (λ v. Sent w v) (ground arith) (nothing w)

  -- For any server, also one whose answers are wrong or change from request to request, any first
  -- page and anything received live: what the worker has sent whenever its run gives a state is a
  -- sequence of events of the stream of its first cursor, each with the cursor right after the one
  -- before it, and the worker stands at the cursor of the last.
  pub run_subscription_worker-Consecutive :
      (signals : Signals V) (fuel : ℕ) (paging : Paging) (server : Server V) (start : SessionCursor)
      (first : Option (SubscribeSessionParams × SubscribeSessionResult V))
      (received : List (Received V × Server V)) (w : Worker V) (progress : Progress)
      → run_subscription_worker fuel signals paging server
          (record { last_enqueued = start; output = [] })
          first
          received
        ≡ some (w, progress)
      → Consecutive start w.output w.last_enqueued
  unfolding run_subscription_worker
  run_subscription_worker-Consecutive signals fuel paging server start first received w progress h =
      let fresh : Worker V = record { last_enqueued = start; output = [] } in
      let replayed = after_replay (replay_fixed_window fuel signals server paging fresh first) in
      elim (Option-cases replayed) [
        | inl out ↦ absurd (
            follow-out signals fuel paging received (w, progress)
              (sym (ap (λ x. follow fuel signals paging received x) out) ∙ h))
        | inr ((v, p), ran) ↦
            let sent =
              both fresh v w (after_replay-Sent signals fuel server paging fresh first v p ran) (
                follow-Sent signals fuel paging received v p w progress
                  (sym (ap (λ x. follow fuel signals paging received x) ran) ∙ h)) in
            subst (λ o. Consecutive start o w.last_enqueued) (sym sent.output) sent.order
      ]
