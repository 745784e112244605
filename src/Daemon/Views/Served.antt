-- ===== src/Daemon/Views/Served.antt =====
-- What a client checks of a replay, and what the daemon serves.
use whale_ai_sdk.Base.{
  ◌≡◌, ◌≤◌, ◌≢◌, ◌<◌, Bool-cases, Option-cases, ap, arith, ltb, nat_eq, string_eq, ◌∙◌, inl, inr,
  if◌then◌else◌, bool_eq,
}
use whale_ai_sdk.Base.Outcome.{Outcome-split, ok}
use whale_ai_sdk.Daemon.Views.Records.{
  SessionViewRecord, or_current, replay, replay_gap, replay_page,
}
use whale_ai_sdk.Daemon.Views.Sound.{Sound}
use whale_ai_sdk.Daemon.Views.Tracks.{locate}
use whale_ai_sdk.Daemon.Views.Pages.{page}
use whale_ai_sdk.Protocol.Views.Replay.{
  SubscribeSessionParams, SubscribeSessionResult, retention, stream_reset, validate_body,
  validate_event_page, validate_events, validate_for, validate_gap, validate_gap_page,
  validate_gap_reason, validate_gap_through, validate_subscribe,
}
use whale_ai_sdk.Protocol.Views.Types.{cursor_eq}
use whale_ai_sdk.Protocol.Views.Validate.{same_stream, validate_cursor}
use whale_ai_sdk.Daemon.Views.Requests.{
  Floored, Sound-Floored, validate_cursor-same, validate_subscribe-Requested,
  validate_subscribe-fixed,
}

module _ {V : Type 0} where
  reset-accepted :
      (r : SessionViewRecord V) (params : SubscribeSessionParams)
      → Floored r
      → params.thread_id ≡ r.snapshot.cursor.thread_id
      → validate_subscribe params ≡ ok tt
      → params.after.stream_id ≢ r.snapshot.cursor.stream_id
      → validate_for params (replay_gap r params r.snapshot.cursor stream_reset) ≡ ok tt
  unfolding validate_for replay_gap validate_body validate_gap_page validate_gap validate_gap_reason
      validate_gap_through same_stream
  reset-accepted r params f thread valid other =
      let q = validate_subscribe-Requested params valid in
      let after = q.after in
      let after_thread = q.thread in
      let floor_thread = f.thread in
      let floor_stream = f.stream in
      let before = f.before in let floor = f.floor in let current = f.current in ground arith

  retention-accepted :
      (r : SessionViewRecord V) (params : SubscribeSessionParams)
      → Floored r
      → params.thread_id ≡ r.snapshot.cursor.thread_id
      → validate_subscribe params ≡ ok tt
      → params.after.stream_id ≡ r.snapshot.cursor.stream_id
      → params.after.seq < r.retained.replay_floor.seq
      → validate_for params
          (replay_gap r params (or_current params.through r.snapshot.cursor) retention)
        ≡ ok tt
  unfolding validate_for replay_gap validate_body validate_gap_page validate_gap validate_gap_reason
      validate_gap_through same_stream
  retention-accepted r params f thread valid stream below =
      let q = validate_subscribe-Requested params valid in
      let after = q.after in
      let after_thread = q.thread in
      let floor_thread = f.thread in
      let floor_stream = f.stream in
      let before = f.before in
      let floor = f.floor in
      let current = f.current in
      elim (Option-cases params.through) [
        | inl initial ↦ ground arith
        | inr (fixed, continued) ↦
            let (fixed_valid, fixed_thread, fixed_stream, ahead) =
              validate_subscribe-fixed params fixed valid continued in
            ground arith
      ]

  page-accepted :
      (r : SessionViewRecord V) (params : SubscribeSessionParams)
      → Sound r
      → params.thread_id ≡ r.snapshot.cursor.thread_id
      → validate_subscribe params ≡ ok tt
      → params.after.stream_id ≡ r.snapshot.cursor.stream_id
      → r.retained.replay_floor.seq ≤ params.after.seq
      → params.after.seq ≤ (or_current params.through r.snapshot.cursor).seq
      → (or_current params.through r.snapshot.cursor).seq ≤ r.snapshot.cursor.seq
      → validate_for params (replay_page r params (or_current params.through r.snapshot.cursor))
        ≡ ok tt
  unfolding validate_for validate_body validate_event_page same_stream replay_page
  page-accepted r params sound thread valid stream floor ahead known =
      let through = or_current params.through r.snapshot.cursor in
      let q = validate_subscribe-Requested params valid in
      let after = q.after in
      let after_thread = q.thread in
      let f = Sound-Floored r sound in
      let current = f.current in
      let consistent = sound.retained in
      let at_floor = consistent.at_floor in
      let floor_thread = f.thread in
      let floor_stream = f.stream in
      let l =
        locate params.after.seq consistent.base r.retained.journal r.snapshot consistent.rebuilds
          (ground arith) (omega arith) in
      let place = l.place in
      let asked : params.after ≡ l.at.cursor = ground arith in
      let ahead' : l.at.cursor.seq ≤ through.seq = ground arith in
      let p =
        page r consistent.base params through l.at consistent.rebuilds l.tracks asked ahead' in
      let resume = p.resume in
      let bounded = p.bounded in
      let same_thread = p.same_thread in
      let same_stream = p.same_stream in
      let checked : validate_events through params.after (replay_page r params through).events
          ≡ ok p.end.cursor =
        ap (λ a. validate_events through a (replay_page r params through).events) asked
        ∙ p.checked in
      let resume_valid : validate_cursor (replay_page r params through).resume_after ≡ ok tt =
        validate_cursor-same (replay_page r params through).resume_after params.after (ground arith)
          (ground arith) after in
      elim (Option-cases params.through) [
        | inl initial ↦ ground arith
        | inr (fixed, continued) ↦
            let (fixed_valid, fixed_thread, fixed_stream, before) =
              validate_subscribe-fixed params fixed valid continued in
            ground arith
      ]

  -- A request for the current stream that is served.
  replay-current :
      (r : SessionViewRecord V) (params : SubscribeSessionParams)
      (result : SubscribeSessionResult V)
      → validate_subscribe params ≡ ok tt
      → params.after.stream_id ≡ r.snapshot.cursor.stream_id
      → replay r params ≡ ok result
      → (params.after.seq ≤ (or_current params.through r.snapshot.cursor).seq)
        × ((or_current params.through r.snapshot.cursor).seq ≤ r.snapshot.cursor.seq)
        × (result ≡ (
            if ltb params.after.seq r.retained.replay_floor.seq
            then replay_gap r params (or_current params.through r.snapshot.cursor) retention
            else replay_page r params (or_current params.through r.snapshot.cursor)))
  unfolding replay
  replay-current r params result valid stream h = elim (Option-cases params.through) [
    | inl initial ↦ ground arith
    | inr (fixed, continued) ↦
        let (fixed_valid, fixed_thread, fixed_stream, before) =
          validate_subscribe-fixed params fixed valid continued in
        ground arith
  ]

  -- Whatever a sound record answers to a replay request for its thread, a page of events or a gap
  -- of either kind, passes the check that a client makes of it.
  pub replay-accepted :
      (r : SessionViewRecord V) (params : SubscribeSessionParams)
      (result : SubscribeSessionResult V)
      → Sound r
      → params.thread_id ≡ r.snapshot.cursor.thread_id
      → replay r params ≡ ok result
      → validate_for params result ≡ ok tt
  unfolding replay
  replay-accepted r params result sound thread h =
      let floored = Sound-Floored r sound in
      elim (Outcome-split (validate_subscribe params)) [
        | inr (m, failed) ↦ absurd (ground arith)
        | inl (done, valid) ↦
            elim (string_eq.dec params.after.stream_id r.snapshot.cursor.stream_id) [
              | no other ↦
                  let accepted = reset-accepted r params floored thread valid other in ground arith
              | yes stream ↦
                  let (ahead, known, served) = replay-current r params result valid stream h in
                  elim (Bool-cases (ltb params.after.seq r.retained.replay_floor.seq)) [
                    | inl below ↦
                        let accepted =
                          retention-accepted r params floored thread valid stream (ground arith) in
                        ground arith
                    | inr kept ↦
                        let accepted =
                          page-accepted r params sound thread valid stream (ground arith) ahead
                            known in
                        ground arith
                  ]
            ]
      ]
