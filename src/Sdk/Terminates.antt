-- ===== src/Sdk/Terminates.antt =====
-- The loop over the pages ends, whatever the server answers.
use whale_ai_sdk.Base.{
  ◌-◌, ◌<◌, ◌∷◌, ◌≡◌, Bool, Bool-cases, List, [], ap, arith, bool_eq, false, none, refl, some,
  string_eq, suc, true, zero, ℕ, ◌⊎◌, inl, inr, Option-cases,
}
use whale_ai_sdk.Base.Outcome.{Outcome, Outcome-split, err, ok}
use whale_ai_sdk.Protocol.Views.Advance.{checked_next-result}
use whale_ai_sdk.Protocol.Views.Replay.{
  SubscribeSessionParams, SubscribeSessionResult, validate_body, validate_event_page,
  validate_events, validate_for,
}
use whale_ai_sdk.Protocol.Views.Types.{SessionCursor, SessionEventEnvelope, cursor_eq}
use whale_ai_sdk.Protocol.Views.Validate.{checked_next}
use whale_ai_sdk.Sdk.Sent.{continuation-cases}
use whale_ai_sdk.Sdk.Subscription.{
  Paging, Server, SessionViewError, Signals, Worker, after_page, again, check_page, enqueue_page,
  get_session_replay_page, next_params, page_step, refuse_gap, replay_pages, request_replay_page,
  requested,
}

module _ {V : Type 0} where
  validate_events-advance :
      (through c d : SessionCursor) (events : List (SessionEventEnvelope V))
      → validate_events through c events ≡ ok d
      → (d ≡ c) ⊎ (c.seq < d.seq)
  unfolding validate_events
  validate_events-advance through c d [] h = inl (ground arith)
  validate_events-advance through c d (e ∷ events) h = elim (Outcome-split (checked_next c)) [
    | inr (m, failed) ↦ absurd (ground arith)
    | inl (n, next) ↦
        let (valid, follows) = checked_next-result c n next in
        elim (validate_events-advance through n d events (ground arith)) [
          | inl same ↦ inr (ground arith)
          | inr later ↦ inr (ground arith)
        ]
  ]

  -- A page that the client accepts and that says that more follows advances the cursor.
  page-progress :
      (params : SubscribeSessionParams) (page : SubscribeSessionResult V)
      → check_page params page ≡ ok tt
      → page.has_more ≡ true
      → (page.gap ≡ none)
        × (params.after.seq < page.resume_after.seq)
        × (page.resume_after.seq < page.through.seq)
  unfolding check_page refuse_gap validate_for validate_body validate_event_page
  page-progress params page h more = elim (Option-cases page.gap) [
    | inr (g, found) ↦ absurd (ground arith)
    | inl no_gap ↦ elim (Outcome-split (validate_events page.through params.after page.events)) [
      | inr (m, failed) ↦ absurd (ground arith)
      | inl (d, checked) ↦
          elim (validate_events-advance page.through params.after d page.events checked) [
            | inl same ↦ absurd (ground arith)
            | inr later ↦ ground arith
          ]
    ]
  ]

  validate_for-fixed :
      (params : SubscribeSessionParams) (page : SubscribeSessionResult V) (fixed : SessionCursor)
      → params.through ≡ some fixed
      → validate_for params page ≡ ok tt
      → page.gap ≡ none
      → page.through ≡ fixed
  unfolding validate_for validate_body validate_event_page
  validate_for-fixed params page fixed continued h no_gap = ground arith

  requested-again :
      (signals : Signals V) (server : Server V) (params later : SubscribeSessionParams)
      (next : SubscribeSessionResult V)
      → requested params (request_replay_page signals server params) ≡ again later next
      → (later ≡ params) × (validate_for params next ≡ ok tt)
  unfolding requested request_replay_page get_session_replay_page
  requested-again signals server params later next h =
      elim (Bool-cases (signals.before_page params)) [
        | inl stop ↦ absurd (ground arith)
        | inr go ↦ elim (Outcome-split (server params)) [
          | inr (m, failed) ↦ absurd (ground arith)
          | inl (page, served) ↦ elim (Outcome-split (validate_for params page)) [
            | inr (m, failed) ↦ absurd (ground arith)
            | inl (passed, valid) ↦ ground arith
          ]
        ]
      ]

  after_page-again :
      (signals : Signals V) (server : Server V) (paging : Paging) (page : SubscribeSessionResult V)
      (sent : Outcome SessionViewError Bool) (later : SubscribeSessionParams)
      (next : SubscribeSessionResult V)
      → after_page signals server paging page sent ≡ again later next
      → (page.has_more ≡ true)
        × (requested
              (next_params paging page)
              (request_replay_page signals server (next_params paging page))
            ≡ again later next)
  unfolding after_page
  after_page-again signals server paging page (err e) later next h = absurd (ground arith)
  after_page-again signals server paging page (ok false) later next h = absurd (ground arith)
  after_page-again signals server paging page (ok true) later next h = ground arith

  page_step-again :
      (signals : Signals V) (server : Server V) (paging : Paging) (w : Worker V)
      (params : SubscribeSessionParams) (page : SubscribeSessionResult V)
      (checked : Outcome SessionViewError (Unit {0})) (later : SubscribeSessionParams)
      (next : SubscribeSessionResult V)
      → (page_step signals server paging w params page checked).1 ≡ again later next
      → (checked ≡ ok tt)
        × (page.has_more ≡ true)
        × (later ≡ next_params paging page)
        × (validate_for (next_params paging page) next ≡ ok tt)
  unfolding page_step
  page_step-again signals server paging w params page (err e) later next h = absurd (ground arith)
  page_step-again signals server paging w params page (ok passed) later next h =
      let (more, asked) =
        after_page-again signals server paging page (enqueue_page signals w page.events).1 later
          next h in
      let (same, valid) =
        requested-again signals server (next_params paging page) later next asked in
      (refl, more, same, valid)

  -- For any server and any signals: with more fuel than the first page's high watermark is ahead of
  -- the cursor that it was asked for, the loop over the pages returns. Each page that the client
  -- accepts and that is not the last advances the cursor, and none moves the high watermark; a page
  -- with a gap ends the loop at once, so that one unit of fuel is enough for it.
  pub replay_pages-returns :
      (fuel : ℕ) (signals : Signals V) (server : Server V) (paging : Paging) (w : Worker V)
      (params : SubscribeSessionParams) (page : SubscribeSessionResult V)
      → 0 < fuel
      → (page.gap ≡ none → page.through.seq - params.after.seq < fuel)
      → (result : Worker V × Outcome SessionViewError Bool) × (replay_pages fuel signals server
            paging w params page
          ≡ some result)
  unfolding replay_pages next_params
  replay_pages-returns zero signals server paging w params page positive enough =
      absurd (omega arith)
  replay_pages-returns (suc fuel) signals server paging w params page positive enough =
      let pass = page_step signals server paging w params page (check_page params page) in
      elim (continuation-cases pass.1) [
        | inl (o, ended) ↦ ((pass.0, o), ground arith)
        | inr (later, next, further) ↦
            let (checked, more, same, valid) =
              page_step-again signals server paging w params page (check_page params page) later
                next further in
            let (no_gap, advanced, short) = page-progress params page checked more in
            let room = enough no_gap in
            let (result, ran) =
              replay_pages-returns fuel signals server paging pass.0 later next (omega arith)
                (λ none_next.
                  let fixed =
                    validate_for-fixed (next_params paging page) next page.through refl valid
                      none_next in
                  let through_seq = ap (λ x. x.seq) fixed in
                  let after_seq = ap (λ x. x.after.seq) same in omega arith) in
            (result, ground arith)
      ]
