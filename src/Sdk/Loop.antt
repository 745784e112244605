-- ===== src/Sdk/Loop.antt =====
-- The loop of the client over the pages of a daemon's record ends at the daemon's snapshot.
use whale_ai_sdk.Base.{
  ◌++◌, ◌-◌, ◌≡◌, ◌<◌, Bool, Bool-cases, List, Option, ap, append_assoc, arith, false, ltb, none,
  refl, some, suc, sym, true, zero, ℕ, ◌∙◌, inl, inr, ◌≤◌, ltb→lt, ltb→ge,
}
use whale_ai_sdk.Base.Outcome.{Outcome, ok}
use whale_ai_sdk.Daemon.Views.Pages.{page}
use whale_ai_sdk.Daemon.Views.Records.{SessionViewRecord, replay, replay_page}
use whale_ai_sdk.Daemon.Views.Served.{replay-accepted}
use whale_ai_sdk.Daemon.Views.Sound.{Sound}
use whale_ai_sdk.Daemon.Views.Tracks.{Tracks, Tracks-end}
use whale_ai_sdk.Daemon.Views.Walk.{apply_events, apply_events-append}
use whale_ai_sdk.Protocol.Views.Replay.{
  SubscribeSessionParams, SubscribeSessionResult, validate_events, validate_for,
}
use whale_ai_sdk.Protocol.Views.Types.{SessionEventEnvelope, SessionSnapshot, cursor_eq}
use whale_ai_sdk.Sdk.CatchUp.{Asked, Current, Asked-page, enqueue-all, Tracks-Current}
use whale_ai_sdk.Sdk.Subscription.{
  Continuation, Paging, Server, SessionViewError, Signals, Worker, after_page, again, check_page,
  done, get_session_replay_page, next_params, page_step, refuse_gap, replay_first,
  replay_fixed_window, replay_pages, request_replay_page, requested,
}

module _ {V : Type 0} where
  replay-after :
      (fuel : ℕ) (signals : Signals V) (server : Server V) (paging : Paging) (w w1 : Worker V)
      (params : SubscribeSessionParams) (pg : SubscribeSessionResult V) (next : Continuation V)
      → page_step signals server paging w params pg (check_page params pg) ≡ (w1, next)
      → replay_pages (suc fuel) signals server paging w params pg ≡ (elim next [
        | done outcome ↦ some (w1, outcome)
        | again later page ↦ replay_pages fuel signals server paging w1 later page
      ])
  unfolding replay_pages
  replay-after fuel signals server paging w w1 params pg next h =
      ap
        (λ x. elim x.1 as (λ y. Option (Worker V × Outcome SessionViewError Bool)) [
          | done outcome ↦ some (x.0, outcome)
          | again later page ↦ replay_pages fuel signals server paging x.0 later page
        ])
        h

module _ {V : Type 0} (r : SessionViewRecord V) (sound : Sound r) (signals : Signals V)
    (never : (params : SubscribeSessionParams) → signals.before_page params ≡ false)
    (quiet : (e : SessionEventEnvelope V) → signals.before_event e ≡ false) (paging : Paging)
    (thread : paging.thread_id ≡ r.snapshot.cursor.thread_id) (positive : 0 < paging.page_size)
    (bounded : paging.page_size ≤ 256) where
  -- A request that the record serves passes the client's checks.
  request-answered :
      (params : SubscribeSessionParams) (c : SessionSnapshot V)
      → Current r c
      → Asked r paging params c
      → (request_replay_page signals (replay r) params
          ≡ ok (some (replay_page r params r.snapshot.cursor)))
        × (validate_for params (replay_page r params r.snapshot.cursor) ≡ ok tt)
  unfolding request_replay_page get_session_replay_page
  request-answered params c now asked =
      let silent = never params in
      let served = Asked-page r paging params c now asked in
      let accepted =
        replay-accepted r params (replay_page r params r.snapshot.cursor) sound asked.thread
          served in
      ground arith

  page-fields :
      (params : SubscribeSessionParams)
      → ((replay_page r params r.snapshot.cursor).gap ≡ none)
        × ((replay_page r params r.snapshot.cursor).has_more
            ≡ ltb (replay_page r params r.snapshot.cursor).resume_after.seq r.snapshot.cursor.seq)
        × ((replay_page r params r.snapshot.cursor).through ≡ r.snapshot.cursor)
  unfolding replay_page
  page-fields params = (refl, refl, refl)

  -- One pass of the loop over such a page.
  pass :
      (w : Worker V) (params : SubscribeSessionParams) (c end : SessionSnapshot V)
      → w.last_enqueued ≡ c.cursor
      → params.after ≡ c.cursor
      → (replay_page r params r.snapshot.cursor).resume_after ≡ end.cursor
      → ((replay_page r params r.snapshot.cursor).has_more ≡ true → c.cursor.seq < end.cursor.seq)
      → validate_for params (replay_page r params r.snapshot.cursor) ≡ ok tt
      → validate_events r.snapshot.cursor c.cursor (replay_page r params r.snapshot.cursor).events
        ≡ ok end.cursor
      → page_step signals
          (replay r)
          paging
          w
          params
          (replay_page r params r.snapshot.cursor)
          (check_page params (replay_page r params r.snapshot.cursor))
        ≡ (
          record {
            last_enqueued = end.cursor;
            output = w.output ++ (replay_page r params r.snapshot.cursor).events;
          },
          after_page signals (replay r) paging (replay_page r params r.snapshot.cursor) (ok true),
        )
  unfolding page_step check_page refuse_gap
  pass w params c end at after resume progress accepted checked =
      let pg = replay_page r params r.snapshot.cursor in
      let (no_gap, more, through) = page-fields params in
      let sent =
        enqueue-all signals r.snapshot.cursor w pg.events end.cursor quiet
          (ap (λ a. validate_events r.snapshot.cursor a pg.events) at ∙ checked) in
      elim (Bool-cases pg.has_more) [
        | inl further ↦ let ahead = progress further in ground arith
        | inr last ↦ ground arith
      ]

  -- What the loop leaves: the worker at the current cursor, and the events that lead there.
  record CaughtUp (w : Worker V) (c : SessionSnapshot V)
      (result : Option (Worker V × Outcome SessionViewError Bool)) : Type 0 where
    events : List (SessionEventEnvelope V)
    returned :
        result
        ≡ some (record { last_enqueued = r.snapshot.cursor; output = w.output ++ events }, ok true)
    applied : apply_events c events ≡ ok r.snapshot

  loop :
      (fuel : ℕ) (w : Worker V) (params : SubscribeSessionParams) (c : SessionSnapshot V)
      → w.last_enqueued ≡ c.cursor
      → Tracks sound.retained.base r.retained.journal r.snapshot c
      → Asked r paging params c
      → r.snapshot.cursor.seq - c.cursor.seq < fuel
      → CaughtUp w c (
          replay_pages fuel signals
            (replay r)
            paging
            w
            params
            (replay_page r params r.snapshot.cursor))
  unfolding replay_pages after_page next_params requested
  loop zero w params c at p asked enough = absurd (omega arith)
  loop (suc fuel) w params c at p asked enough =
      let current = r.snapshot.cursor in
      let now = Tracks-Current r sound c p in
      let behind = now.behind in
      let (answered, accepted) = request-answered params c now asked in
      let got =
        page r sound.retained.base params current c sound.retained.rebuilds p asked.after behind in
      let reached = got.reached in
      let resume = got.resume in
      let some_events = asked.some_events in
      let resume_seq = ap (λ x. x.seq) resume in
      let pg = replay_page r params current in
      let w1 : Worker V = record {
        last_enqueued = got.end.cursor;
        output = w.output ++ pg.events;
      } in
      let (no_gap, more, through) = page-fields params in
      let ahead : pg.has_more ≡ true → c.cursor.seq < got.end.cursor.seq = λ further.
        let short = ltb→lt pg.resume_after.seq current.seq (sym more ∙ further) in omega arith in
      let stepped = pass w params c got.end at asked.after resume ahead accepted got.checked in
      elim (Bool-cases pg.has_more) [
        | inr last ↦
            let there : got.end.cursor.seq ≡ current.seq =
              (let full = ltb→ge pg.resume_after.seq current.seq (sym more ∙ last) in
                omega arith) in
            let whole =
              Tracks-end sound.retained.base r.retained.journal r.snapshot got.end got.tracks
                there in
            let at_end = ap (λ s. s.cursor) whole in
            let finished : after_page signals (replay r) paging pg (ok true) ≡ done (ok true) =
              ground arith in
            record {
              events = pg.events;
              returned =
                  replay-after fuel signals (replay r) paging w w1 params pg (done (ok true))
                    (stepped ∙ ap (λ x. (w1, x)) finished)
                  ∙ ap (λ x. some (record { last_enqueued = x; output = w1.output }, ok true))
                      at_end;
              applied = got.applied ∙ ap (λ s. ok s) whole;
            }
        | inl further ↦
            let later = next_params paging pg in
            let asked' : Asked r paging later got.end = record {
              after = resume;
              thread = thread;
              some_events = positive;
              few_events = bounded;
              window = inr (ap (λ x. some x) through);
            } in
            let now' = Tracks-Current r sound got.end got.tracks in
            let (answered', accepted') = request-answered later got.end now' asked' in
            let repeated : after_page signals (replay r) paging pg (ok true)
                ≡ again later (replay_page r later current) =
              ground arith in
            let c' = loop fuel w1 later got.end refl got.tracks asked' (
              let short = ltb→lt pg.resume_after.seq current.seq (sym more ∙ further) in
              let gone = ahead further in omega arith) in
            let returned' = c'.returned in
            record {
              events = pg.events ++ c'.events;
              returned =
                  replay-after fuel signals (replay r) paging w w1 params pg
                    (again later (replay_page r later current))
                    (stepped ∙ ap (λ x. (w1, x)) repeated)
                  ∙ c'.returned
                  ∙ ap (λ x. some (record { last_enqueued = current; output = x }, ok true))
                      (append_assoc w.output pg.events c'.events);
              applied = apply_events-append c pg.events c'.events got.end got.applied ∙ c'.applied;
            }
      ]

-- For every sound record `r` of a session, every projection `c` of a client that the record's
-- journal continues, page sizes from 1 to 256, and no signal that interrupts the worker: with more
-- fuel than the client is behind, the loop over the pages returns, leaves the worker at the cursor
-- of the daemon's snapshot, and has sent events that turn `c` into exactly that snapshot.
pub catch_up :
    {V : Type 0} (r : SessionViewRecord V) (sound : Sound r) (signals : Signals V)
    → ((params : SubscribeSessionParams) → signals.before_page params ≡ false)
    → ((e : SessionEventEnvelope V) → signals.before_event e ≡ false)
    → (paging : Paging) → paging.thread_id ≡ r.snapshot.cursor.thread_id
    → 0 < paging.page_size
    → paging.page_size ≤ 256
    → (c : SessionSnapshot V) → Tracks sound.retained.base r.retained.journal r.snapshot c
    → (w : Worker V) → w.last_enqueued ≡ c.cursor
    → (fuel : ℕ) → r.snapshot.cursor.seq - c.cursor.seq < fuel
    → (events : List (SessionEventEnvelope V)) × (replay_fixed_window fuel signals
          (replay r)
          paging
          w
          none
        ≡ some (record { last_enqueued = r.snapshot.cursor; output = w.output ++ events }, ok true))
      × (apply_events c events ≡ ok r.snapshot)
unfolding replay_fixed_window replay_first
catch_up {V} r sound signals never quiet paging thread positive bounded c p w at fuel enough =
    let params : SubscribeSessionParams = record {
      thread_id = paging.thread_id;
      after = w.last_enqueued;
      through = none;
      limit = paging.page_size;
    } in
    let asked : Asked r paging params c = record {
      after = at;
      thread = thread;
      some_events = positive;
      few_events = bounded;
      window = inl refl;
    } in
    let (answered, accepted) =
      request-answered r sound signals never quiet paging thread positive bounded params c
        (Tracks-Current r sound c p) asked in
    let caught =
      loop r sound signals never quiet paging thread positive bounded fuel w params c at p asked
        enough in
    (
      caught.events,
      ap (λ x. replay_first fuel signals (replay r) paging w params x) answered ∙ caught.returned,
      caught.applied,
    )
