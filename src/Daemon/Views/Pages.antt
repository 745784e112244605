-- ===== src/Daemon/Views/Pages.antt =====
-- A page without a gap: which events it holds, and what they make of the client's projection.
use whale_ai_sdk.Base.{
  ◌+◌, ◌-◌, ◌≡◌, ◌≤◌, ap, arith, length, length-take, min, take, take-take, ◌∙◌,
}
use whale_ai_sdk.Base.Outcome.{ok}
use whale_ai_sdk.Daemon.Views.Rebuild.{Rebuilds}
use whale_ai_sdk.Daemon.Views.Records.{SessionViewRecord, between, last_cursor, replay_page}
use whale_ai_sdk.Daemon.Views.Tracks.{Tracks, Tracks-advance, Tracks-between}
use whale_ai_sdk.Daemon.Views.Walk.{apply_events, envelopes, walk}
use whale_ai_sdk.Protocol.Views.Replay.{SubscribeSessionParams, validate_events}
use whale_ai_sdk.Protocol.Views.Types.{SessionCursor, SessionSnapshot}

module _ {V : Type 0} where
  -- `c` is the projection of a client, at the cursor that it asks from.
  pub record Page (r : SessionViewRecord V) (base : SessionSnapshot V)
      (params : SubscribeSessionParams) (through : SessionCursor) (c : SessionSnapshot V)
      : Type 0 where
    pub end : SessionSnapshot V
    pub tracks : Tracks base r.retained.journal r.snapshot end
    pub applied : apply_events c (replay_page r params through).events ≡ ok end
    pub resume : (replay_page r params through).resume_after ≡ end.cursor
    pub reached :
        end.cursor.seq
        ≡ c.cursor.seq
          + min
              (min params.limit (through.seq - c.cursor.seq))
              (r.snapshot.cursor.seq - c.cursor.seq)
    pub same_thread : end.cursor.thread_id ≡ c.cursor.thread_id
    pub same_stream : end.cursor.stream_id ≡ c.cursor.stream_id
    pub checked :
        validate_events through c.cursor (replay_page r params through).events ≡ ok end.cursor
    pub bounded : length (replay_page r params through).events ≤ params.limit

  pub page :
      (r : SessionViewRecord V) (base : SessionSnapshot V) (params : SubscribeSessionParams)
      (through : SessionCursor) (c : SessionSnapshot V)
      → Rebuilds base r.retained.journal r.snapshot
      → Tracks base r.retained.journal r.snapshot c
      → params.after ≡ c.cursor
      → c.cursor.seq ≤ through.seq
      → Page r base params through c
  unfolding replay_page
  page r base params through c h p asked ahead =
      let m = min params.limit (through.seq - c.cursor.seq) in
      let (later, distance) = Tracks-between base r.retained.journal r.snapshot c through.seq h p in
      let events = take params.limit (between params.after.seq through.seq r.retained.journal) in
      let here : events ≡ take m (envelopes p.post) =
        ap (λ a. take params.limit (between a.seq through.seq r.retained.journal)) asked
        ∙ ap (λ xs. take params.limit xs) later
        ∙ take-take params.limit (through.seq - c.cursor.seq) (envelopes p.post) in
      let w = walk m c p.post r.snapshot p.rest in
      let place = w.place in
      record {
        end = w.end;
        tracks = Tracks-advance base r.retained.journal r.snapshot c p m w;
        applied = rw here w.applied;
        resume =
            ap (λ a. last_cursor a events) asked ∙ ap (λ xs. last_cursor c.cursor xs) here ∙ w.last;
        reached = ground arith;
        same_thread = ap (λ x. x.thread_id) place;
        same_stream = ap (λ x. x.stream_id) place;
        checked = rw here (w.checked through (omega arith));
        bounded = omega (
          arith,
          length-take params.limit (between params.after.seq through.seq r.retained.journal),
        );
      }
