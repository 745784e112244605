-- ===== src/Sdk/CatchUp.antt =====
-- The client's loop over the pages of a daemon's record.
use whale_ai_sdk.Base.{
  ◌++◌, ◌∷◌, ◌≡◌, ◌≤◌, ◌<◌, List, [], ap, append-nil, append_assoc, arith, false, nat_eq, none,
  some, string_eq, true, ◌⊎◌, inl, inr,
}
use whale_ai_sdk.Base.Outcome.{Outcome-split, ok}
use whale_ai_sdk.Daemon.Views.Records.{SessionViewRecord, replay, replay_page}
use whale_ai_sdk.Daemon.Views.Requests.{Rebuilds-stream, snapshot-cursor, validate_cursor-same}
use whale_ai_sdk.Daemon.Views.Scrub.{Rebuilds-seq}
use whale_ai_sdk.Daemon.Views.Sound.{Sound}
use whale_ai_sdk.Daemon.Views.Tracks.{Tracks, Tracks-base}
use whale_ai_sdk.Protocol.Views.Replay.{SubscribeSessionParams, validate_events, validate_subscribe}
use whale_ai_sdk.Protocol.Views.Types.{
  SessionCursor, SessionEventEnvelope, SessionSnapshot, cursor_eq,
}
use whale_ai_sdk.Protocol.Views.Validate.{checked_next, same_stream, validate_cursor}
use whale_ai_sdk.Sdk.Subscription.{
  Paging, Signals, Worker, enqueue_event, enqueue_page, is_next_cursor,
}

next-IsNext : (c d : SessionCursor) → checked_next c ≡ ok d → is_next_cursor c d ≡ true
unfolding checked_next is_next_cursor same_stream
next-IsNext c d h = ground arith

module _ {V : Type 0} (signals : Signals V) where
  -- Without a signal, the events of a valid page are all sent.
  pub enqueue-all :
      (through : SessionCursor) (w : Worker V) (events : List (SessionEventEnvelope V))
      (end : SessionCursor)
      → ((e : SessionEventEnvelope V) → signals.before_event e ≡ false)
      → validate_events through w.last_enqueued events ≡ ok end
      → enqueue_page signals w events
        ≡ (record { last_enqueued = end; output = w.output ++ events }, ok true)
  unfolding enqueue_page validate_events enqueue_event
  enqueue-all through w [] end quiet h = let whole = append-nil w.output in ground arith
  enqueue-all through w (event ∷ events) end quiet h =
      elim (Outcome-split (checked_next w.last_enqueued)) [
        | inr (m, failed) ↦ absurd (ground arith)
        | inl (next, found) ↦
            let contiguous = next-IsNext w.last_enqueued next found in
            let silent = quiet event in
            let later =
              enqueue-all through (enqueue_event w event) events end quiet (ground arith) in
            let assoc = append_assoc w.output (event ∷ []) events in (ground arith)
      ]

module _ {V : Type 0} (r : SessionViewRecord V) where
  -- A request for the events after the projection `c` of a client, up to the current cursor.
  pub record Asked (paging : Paging) (params : SubscribeSessionParams) (c : SessionSnapshot V)
      : Type 0 where
    pub after : params.after ≡ c.cursor
    pub thread : params.thread_id ≡ r.snapshot.cursor.thread_id
    pub some_events : 0 < params.limit
    pub few_events : params.limit ≤ 256
    pub window : (params.through ≡ none) ⊎ (params.through ≡ some r.snapshot.cursor)

  pub record Current (c : SessionSnapshot V) : Type 0 where
    pub valid : validate_cursor c.cursor ≡ ok tt
    pub current_valid : validate_cursor r.snapshot.cursor ≡ ok tt
    pub same_thread : c.cursor.thread_id ≡ r.snapshot.cursor.thread_id
    pub same_stream : c.cursor.stream_id ≡ r.snapshot.cursor.stream_id
    pub behind : c.cursor.seq ≤ r.snapshot.cursor.seq
    pub kept : r.retained.replay_floor.seq ≤ c.cursor.seq

  pub Tracks-Current :
      (sound : Sound r) (c : SessionSnapshot V)
      → Tracks sound.retained.base r.retained.journal r.snapshot c
      → Current c
  Tracks-Current sound c p =
      let consistent = sound.retained in
      let (thread, stream) = Rebuilds-stream c p.post r.snapshot p.rest in
      let at_floor = ap (λ x. x.seq) consistent.at_floor in
      let above =
        Tracks-base consistent.base r.retained.journal r.snapshot c consistent.rebuilds p in
      let current_valid = snapshot-cursor r.snapshot sound.valid in
      record {
        valid = validate_cursor-same c.cursor r.snapshot.cursor thread stream current_valid;
        current_valid = current_valid;
        same_thread = thread;
        same_stream = stream;
        behind = Rebuilds-seq c p.post r.snapshot p.rest;
        kept = omega arith;
      }

  pub Asked-valid :
      (paging : Paging) (params : SubscribeSessionParams) (c : SessionSnapshot V)
      → Current c
      → Asked paging params c
      → validate_subscribe params ≡ ok tt
  unfolding validate_subscribe same_stream validate_cursor
  Asked-valid paging params c now asked =
      let after = asked.after in
      let thread = asked.thread in
      let some_events = asked.some_events in
      let few_events = asked.few_events in
      let valid = now.valid in
      let current_valid = now.current_valid in
      let same_thread = now.same_thread in
      let same_stream = now.same_stream in
      let behind = now.behind in
      elim asked.window [ inl initial ↦ ground arith | inr continued ↦ ground arith ]

  pub Asked-page :
      (paging : Paging) (params : SubscribeSessionParams) (c : SessionSnapshot V)
      → Current c
      → Asked paging params c
      → replay r params ≡ ok (replay_page r params r.snapshot.cursor)
  unfolding replay
  Asked-page paging params c now asked =
      let valid = Asked-valid paging params c now asked in
      let after = asked.after in
      let same_stream = now.same_stream in
      let behind = now.behind in
      let kept = now.kept in
      elim asked.window [ inl initial ↦ ground arith | inr continued ↦ ground arith ]
