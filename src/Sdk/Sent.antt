-- ===== src/Sdk/Sent.antt =====
-- The events that a worker sends in a replay are consecutive.
use whale_ai_sdk.Base.{
  ◌++◌, ◌∷◌, ◌≡◌, Bool, Bool-cases, List, Option, Option-cases, [], append-nil, append_assoc, arith,
  ap, none, refl, some, suc, sym, true, zero, ℕ, ◌∙◌, ◌⊎◌, inl, inr, subst,
}
use whale_ai_sdk.Base.Outcome.{Outcome, Outcome-split, err, ok}
use whale_ai_sdk.Protocol.Views.Replay.{SubscribeSessionParams, SubscribeSessionResult}
use whale_ai_sdk.Protocol.Views.Types.{SessionCursor, SessionEventEnvelope}
use whale_ai_sdk.Sdk.Subscription.{
  Continuation, Paging, Server, SessionViewError, Signals, Worker, again, check_page, done,
  enqueue_event, enqueue_page, is_next_cursor, page_step, replay_first, replay_fixed_window,
  replay_pages, request_replay_page,
}

module _ {V : Type 0} where
  -- Each event's cursor is the next after the one before it.
  abbrev pub Consecutive : SessionCursor → List (SessionEventEnvelope V) → SessionCursor → Type 0
  Consecutive start [] end = start ≡ end
  Consecutive start (e ∷ events) end =
      (is_next_cursor start e.cursor ≡ true) × Consecutive e.cursor events end

  Consecutive-append :
      (start middle end : SessionCursor) (xs ys : List (SessionEventEnvelope V))
      → Consecutive start xs middle
      → Consecutive middle ys end
      → Consecutive start (xs ++ ys) end
  Consecutive-append start middle end [] ys same h = subst (λ c. Consecutive c ys end) (sym same) h
  Consecutive-append start middle end (e ∷ xs) ys (next, rest) h =
      (next, Consecutive-append e.cursor middle end xs ys rest h)

  -- A worker that has sent more events after the one before.
  pub record Sent (w w' : Worker V) : Type 0 where
    pub events : List (SessionEventEnvelope V)
    pub output : w'.output ≡ w.output ++ events
    pub order : Consecutive w.last_enqueued events w'.last_enqueued

  pub nothing : (w : Worker V) → Sent w w
  nothing w = record { events = []; output = sym (append-nil w.output); order = refl }

  pub both : (a b c : Worker V) → Sent a b → Sent b c → Sent a c
  both a b c x y = record {
    events = x.events ++ y.events;
    output = y.output ∙ ap (λ o. o ++ y.events) x.output ∙ append_assoc a.output x.events y.events;
    order =
        Consecutive-append a.last_enqueued b.last_enqueued c.last_enqueued x.events y.events x.order
          y.order;
  }

  pub one :
      (w : Worker V) (e : SessionEventEnvelope V)
      → is_next_cursor w.last_enqueued e.cursor ≡ true
      → Sent w (enqueue_event w e)
  unfolding enqueue_event
  one w e h = record { events = e ∷ []; output = refl; order = (h, refl) }

  pub continuation-cases :
      (k : Continuation V)
      → ((o : Outcome SessionViewError Bool) × (k ≡ done o))
        ⊎ ((later : SubscribeSessionParams) × (next : SubscribeSessionResult V) × (k
              ≡ again later next))
  continuation-cases (done o) = inl (o, refl)
  continuation-cases (again later next) = inr (later, next, refl)

  module _ (signals : Signals V) where
    enqueue_page-Sent :
        (w : Worker V) (events : List (SessionEventEnvelope V))
        → Sent w (enqueue_page signals w events).0
    unfolding enqueue_page
    enqueue_page-Sent w [] = nothing w
    enqueue_page-Sent w (e ∷ events) =
        let later = enqueue_page-Sent (enqueue_event w e) events in
        elim (Bool-cases (is_next_cursor w.last_enqueued e.cursor)) [
          | inr other ↦ rw other (nothing w)
          | inl next ↦ elim (Bool-cases (signals.before_event e)) [
            | inl stop ↦ rw (next, stop) (nothing w)
            | inr go ↦
                rw (next, go)
                  (both w (enqueue_event w e) (enqueue_page signals (enqueue_event w e) events).0
                    (one w e next) later)
          ]
        ]

    page_step-Sent :
        (server : Server V) (paging : Paging) (w : Worker V) (params : SubscribeSessionParams)
        (page : SubscribeSessionResult V) (checked : Outcome SessionViewError (Unit {0}))
        → Sent w (page_step signals server paging w params page checked).0
    unfolding page_step
    page_step-Sent server paging w params page (err e) = nothing w
    page_step-Sent server paging w params page (ok passed) = enqueue_page-Sent w page.events

    replay_pages-Sent :
        (fuel : ℕ) (server : Server V) (paging : Paging) (w : Worker V)
        (params : SubscribeSessionParams) (page : SubscribeSessionResult V) (w' : Worker V)
        (outcome : Outcome SessionViewError Bool)
        → replay_pages fuel signals server paging w params page ≡ some (w', outcome)
        → Sent w w'
    unfolding replay_pages
    replay_pages-Sent zero server paging w params page w' outcome h = absurd (ground arith)
    replay_pages-Sent (suc fuel) server paging w params page w' outcome h =
        let pass = page_step signals server paging w params page (check_page params page) in
        let sent = page_step-Sent server paging w params page (check_page params page) in
        elim (continuation-cases pass.1) [
          | inl (o, ended) ↦ subst (λ v. Sent w v) (ground arith) sent
          | inr (later, next, further) ↦
              both w pass.0 w' sent
                (replay_pages-Sent fuel server paging pass.0 later next w' outcome (ground arith))
        ]

    pub replay_fixed_window-Sent :
        (fuel : ℕ) (server : Server V) (paging : Paging) (w : Worker V)
        (first : Option (SubscribeSessionParams × SubscribeSessionResult V)) (w' : Worker V)
        (outcome : Outcome SessionViewError Bool)
        → replay_fixed_window fuel signals server paging w first ≡ some (w', outcome)
        → Sent w w'
    unfolding replay_fixed_window replay_first
    replay_fixed_window-Sent fuel server paging w (some (params, page)) w' outcome h =
        replay_pages-Sent fuel server paging w params page w' outcome h
    replay_fixed_window-Sent fuel server paging w none w' outcome h =
        let params : SubscribeSessionParams = record {
          thread_id = paging.thread_id;
          after = w.last_enqueued;
          through = none;
          limit = paging.page_size;
        } in
        elim (Outcome-split (request_replay_page signals server params)) [
          | inr (e, failed) ↦ subst (λ v. Sent w v) (ground arith) (nothing w)
          | inl (answer, asked) ↦ elim (Option-cases answer) [
            | inl stopped ↦ subst (λ v. Sent w v) (ground arith) (nothing w)
            | inr (page, got) ↦
                replay_pages-Sent fuel server paging w params page w' outcome (ground arith)
          ]
        ]
