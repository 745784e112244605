-- ===== src/Tests/Views.antt =====
-- A live session of one run: its record in the daemon, the events of the run, and a client that
-- replays them.
use whale_ai_sdk.Base.{
  Bool, List, String, [], arith, bool_eq, contains, false, nat_eq, none, option_eq, refl, some,
  string_dec, string_eq, suc, sym, true, ℕ, ℕ_discrete, ◌+◌, ◌-◌, ◌<◌, ◌∷◌, ◌≡◌, ◌≤◌, ◌⊎◌,
}
use whale_ai_sdk.Base.Outcome.{Outcome, err, ok}
use whale_ai_sdk.Base.Text.{is_blank, is_padded}
use whale_ai_sdk.Base.TreeMap.{TreeMap, get, insert, remove}
use whale_ai_sdk.Daemon.Views.Journal.{
  EventJournalLimits, JournalState, drop_through, evict, larger, last_of_run, retain_prepared,
  scrub_from, scrub_run, scrubbed,
}
use whale_ai_sdk.Daemon.Views.Reached.{
  Reached, Reached-Sound, Reached-accepted, begins, inserts, starts,
}
use whale_ai_sdk.Daemon.Views.Rebuild.{Consistent, retain-Consistent}
use whale_ai_sdk.Daemon.Views.Records.{
  SessionViewRecord, between, event_turn_id, last_cursor, next_envelope, publish, replay,
  replay_gap, replay_page, retire_run, snapshot_with_history_limit, with_identity, with_owner,
}
use whale_ai_sdk.Daemon.Views.Registry.{
  begin_run, changed_run, get_session, insert_session, owned, publish_run_changed,
  publish_run_event, remove_from, remove_session, retire_session_run, subscribe,
}
use whale_ai_sdk.Daemon.Views.Served.{replay-accepted}
use whale_ai_sdk.Daemon.Views.Sound.{Sound, publish-Sound, retire_run-Sound, with_owner-Sound}
use whale_ai_sdk.Daemon.Views.Walk.{apply_events}
use whale_ai_sdk.Protocol.Canonical.{
  CanonicalItem, MessagePhase, assistant_message, id_of, user_message,
}
use whale_ai_sdk.Protocol.Events.{RunEventPayload, finished, item_started, stream, stream_turn_id}
use whale_ai_sdk.Protocol.Runs.{RunSnapshot, RunStatus, is_terminal}
use whale_ai_sdk.Protocol.Views.Advance.{Applied, apply_event-result, apply_event-twice}
use whale_ai_sdk.Protocol.Views.Apply.{
  advance, append_items, apply_event, apply_finished, apply_next, apply_payload, apply_run_payload,
}
use whale_ai_sdk.Protocol.Views.Replay.{
  SubscribeSessionParams, SubscribeSessionResult, validate_body, validate_event_page,
  validate_events, validate_for, validate_gap, validate_gap_page, validate_gap_reason,
  validate_gap_through, validate_get, validate_subscribe,
}
use whale_ai_sdk.Protocol.Views.Stream.{
  append_canonical_once, apply_stream_event, change_draft, change_execution, change_run_draft,
  complete_item, remove_draft, request_approval, start_item, stream_change, with_run, with_snapshot,
}
use whale_ai_sdk.Protocol.Views.Tail.{append_unless_known-tail_of, from_history-tail_of, tail_of}
use whale_ai_sdk.Protocol.Views.Types.{
  SessionCursor, SessionEventEnvelope, SessionEventPayload, SessionHistoryWindow,
  SessionProjectionError, SessionSnapshot, SessionSummary, cursor_eq, new_run_view, new_snapshot,
  new_summary, run_changed, run_event,
}
use whale_ai_sdk.Protocol.Views.Validate.{
  checked_next, same_stream, validate_cursor, validate_draft, validate_drafts_from,
  validate_envelope, validate_payload, validate_run_summary, validate_run_view, validate_snapshot,
  validate_summary,
}
use whale_ai_sdk.Protocol.Views.Window.{
  append_unless_known, from_history, is_known, new_window, push_item, reindexed,
  validate_history_capacity, validate_identity, validate_items_from, validate_window,
}
use whale_ai_sdk.Sdk.Contiguous.{run_subscription_worker-Consecutive}
use whale_ai_sdk.Sdk.Follow.{
  Received, after_replay, caught_up, follow, on_received, run_subscription_worker, waits,
}
use whale_ai_sdk.Sdk.Loop.{catch_up}
use whale_ai_sdk.Sdk.Sent.{Consecutive}
use whale_ai_sdk.Sdk.Subscription.{
  Paging, Server, SessionViewError, Signals, Worker, after_page, check_page, enqueue_event,
  enqueue_page, get_session_replay_page, is_next_cursor, next_params, page_step, refuse_gap,
  replay_first, replay_fixed_window, replay_pages, request_replay_page, requested,
}
use whale_ai_sdk.Sdk.Terminates.{replay_pages-returns}

abbrev pub summary : SessionSummary ℕ
summary = record {
  thread_id = "t";
  agent_name = none;
  metadata = [];
  created_at_ms = 5;
  updated_at_ms = 5;
  revision = 0;
}

abbrev pub window : SessionHistoryWindow ℕ
window = record { items = []; start_index = 0; total_items = 0; capacity = 1024 }

abbrev pub limits : EventJournalLimits
limits = record { max_events = 2; max_bytes = 10 }

abbrev pub size : SessionEventEnvelope ℕ → Outcome String ℕ
size e = ok 4

abbrev pub display : SessionProjectionError → String
display e = "error"

abbrev pub running : RunSnapshot ℕ
running = record {
  tool_executions = [];
  thread_id = "t";
  turn_id = "turn";
  status = RunStatus.running;
  items = [];
  usage = record {
    input_tokens = 0;
    output_tokens = 0;
    reasoning_tokens = 0;
    cache_creation_input_tokens = 0;
    cache_read_input_tokens = 0;
  };
  pending_approvals = [];
  last_seq = 0;
  result = none;
  error = none;
}

abbrev pub answer : CanonicalItem ℕ
answer = assistant_message "i" [] MessagePhase.final_answer

abbrev pub begun : SessionEventPayload ℕ
begun =
    run_changed
      (record { snapshot = running; in_progress_items = []; accepted_at_ms = 6; updated_at_ms = 6 })

abbrev pub streamed : ℕ → RunEventPayload ℕ → SessionEventPayload ℕ
streamed seq payload =
    run_event (record { thread_id = "t"; turn_id = "turn"; seq = seq; payload = payload })

abbrev pub started : SessionEventPayload ℕ
started = streamed 1 (stream (item_started "turn" "i" "assistant_message" none))

abbrev pub ended : SessionEventPayload ℕ
ended =
    streamed 2 (
      finished (record running { status = RunStatus.completed; items = answer ∷ []; last_seq = 2 }))

abbrev pub fresh : SessionViewRecord ℕ
fresh = record {
  owner = "o";
  snapshot = record {
    summary = summary;
    history = window;
    active_run = none;
    last_run = none;
    cursor = record { thread_id = "t"; stream_id = "s"; seq = 0 };
  };
  retained = record {
    journal = [];
    journal_bytes = 0;
    replay_floor = record { thread_id = "t"; stream_id = "s"; seq = 0 };
  };
  limits = limits;
  run_identities = [];
}

abbrev pub record_of :
    SessionViewRecord ℕ
    → Outcome String (SessionViewRecord ℕ × SessionEventEnvelope ℕ)
    → SessionViewRecord ℕ
record_of old (ok (new, e)) = new
record_of old (err m) = old

abbrev pub event : ℕ → SessionEventPayload ℕ → SessionEventEnvelope ℕ
event seq payload = record {
  thread_id = "t";
  cursor = record { thread_id = "t"; stream_id = "s"; seq = seq };
  occurred_at_ms = 5 + seq;
  payload = payload;
}

abbrev pub first : SessionViewRecord ℕ
first = record_of fresh (publish size display fresh 6 begun (some ("turn", 1)))

abbrev pub second : SessionViewRecord ℕ
second = record_of first (publish size display first 7 started none)

abbrev pub third : SessionViewRecord ℕ
third = record_of second (publish size display second 8 ended none)

abbrev pub paging : Paging
paging = record { thread_id = "t"; page_size = 1 }

abbrev pub asked : SubscribeSessionParams
asked = record {
  thread_id = "t";
  after = record { thread_id = "t"; stream_id = "s"; seq = 2 };
  through = none;
  limit = 1;
}

abbrev pub page_of :
    Outcome String (SubscribeSessionResult ℕ) → SubscribeSessionResult ℕ → SubscribeSessionResult ℕ
page_of (ok page) other = page
page_of (err m) other = other

abbrev pub empty : SubscribeSessionResult ℕ
empty = record {
  events = [];
  resume_after = asked.after;
  through = asked.after;
  has_more = false;
  gap = none;
}

abbrev pub quiet : Signals ℕ
quiet = record { before_page = λ params. false; before_event = λ e. false }

abbrev pub behind : SessionCursor
behind = record { thread_id = "t"; stream_id = "s"; seq = 1 }

abbrev pub sent_worker : Worker ℕ
sent_worker = record {
  last_enqueued = record { thread_id = "t"; stream_id = "s"; seq = 3 };
  output = event 2 started ∷ event 3 ended ∷ [];
}

abbrev pub arrivals : List (Received ℕ × Server ℕ)
arrivals = (Received.event (event 3 ended), replay third) ∷ []

abbrev pub opened : TreeMap (SessionViewRecord ℕ)
opened = insert [] "t" fresh

abbrev pub registered : TreeMap (SessionViewRecord ℕ)
registered = insert opened "t" first

abbrev pub asked_first : SubscribeSessionParams
asked_first = record asked { after = record behind { seq = 0 } }

pub record Facts : Type 0 where
  pub made : with_owner "o" summary window "s" limits ≡ ok fresh
  pub one : publish size display fresh 6 begun (some ("turn", 1)) ≡ ok (first, event 1 begun)
  pub two : publish size display first 7 started none ≡ ok (second, event 2 started)
  pub three : publish size display second 8 ended none ≡ ok (third, event 3 ended)
  pub applied : apply_event first.snapshot (event 2 started) ≡ ok (second.snapshot, true)
  pub served : replay third asked ≡ ok (page_of (replay third asked) empty)
  pub thread : third.snapshot.cursor.thread_id ≡ "t"
  pub cut : third.retained.replay_floor.seq ≡ 1
  pub from :
      from_history (answer ∷ []) 2
      ≡ ok (record { items = answer ∷ []; start_index = 0; total_items = 1; capacity = 2 })
  pub unknown : is_known "j" (answer ∷ []) ≡ false
  pub ran :
      run_subscription_worker 4 quiet paging
        (replay second)
        (record { last_enqueued = behind; output = [] })
        none
        arrivals
      ≡ some (sent_worker, waits)
  pub inserted : insert_session limits "s" [] "o" "t" none [] [] 5 ≡ ok opened
  pub one_of : begin_run size display opened "o" running 1 6 ≡ ok (registered, event 1 begun)
  pub stands : get registered "t" ≡ some first
  pub answered :
      subscribe registered "o" asked_first ≡ ok (page_of (replay first asked_first) empty)
  pub named : validate_identity "j" "history item_id" ≡ ok tt

pub facts : Facts
unfolding validate_identity validate_history_capacity validate_items_from new_window from_history
    validate_window push_item reindexed append_unless_known validate_cursor checked_next same_stream
    validate_draft validate_drafts_from validate_run_summary validate_summary validate_run_view
    validate_snapshot validate_payload validate_envelope cursor_eq new_summary new_run_view
    new_snapshot change_draft remove_draft change_execution append_canonical_once with_run
    with_snapshot change_run_draft start_item complete_item request_approval stream_change
    apply_stream_event append_items apply_finished apply_run_payload apply_payload advance
    apply_next apply_event validate_get validate_subscribe validate_gap_reason validate_gap
    validate_gap_through validate_events validate_gap_page validate_event_page validate_body
    validate_for larger evict retain_prepared last_of_run drop_through scrubbed scrub_from scrub_run
    with_identity event_turn_id with_owner next_envelope publish retire_run
    snapshot_with_history_limit between last_cursor replay_gap replay_page replay apply_events
    insert_session owned get_session subscribe changed_run begin_run publish_run_event
    publish_run_changed retire_session_run remove_from remove_session is_next_cursor refuse_gap
    get_session_replay_page request_replay_page enqueue_event enqueue_page check_page next_params
    requested after_page page_step replay_pages replay_first replay_fixed_window on_received
    after_replay caught_up follow run_subscription_worker stream_turn_id is_terminal id_of is_blank
    is_padded string_dec ℕ_discrete nat_eq string_eq option_eq bool_eq contains get insert remove
facts = record {
  made = refl;
  one = refl;
  two = refl;
  three = refl;
  applied = refl;
  served = refl;
  thread = refl;
  cut = refl;
  from = refl;
  unknown = refl;
  ran = refl;
  inserted = refl;
  one_of = refl;
  stands = refl;
  answered = refl;
  named = refl;
}

fresh-Sound : Sound fresh
fresh-Sound = with_owner-Sound "o" summary window "s" limits fresh facts.made

first-Sound : Sound first
first-Sound =
    (publish-Sound size display fresh 6 begun (some ("turn", 1)) first (event 1 begun) fresh-Sound
      facts.one).1

second-Sound : Sound second
second-Sound =
    (publish-Sound size display first 7 started none second (event 2 started) first-Sound
      facts.two).1

third-Sound : Sound third
third-Sound =
    (publish-Sound size display second 8 ended none third (event 3 ended) second-Sound
      facts.three).1

publish-Sound_example :
    (apply_event second.snapshot (event 3 ended) ≡ ok (third.snapshot, true)) × Sound third
publish-Sound_example =
    publish-Sound size display second 8 ended none third (event 3 ended) second-Sound facts.three

retire_run-Sound_example :
    (r' : SessionViewRecord ℕ) × (retired : Bool) × (retire_run third "turn" 1 ≡ ok (r', retired))
    × (r'.snapshot ≡ third.snapshot)
    × Sound r'
retire_run-Sound_example = retire_run-Sound third "turn" 1 third-Sound

retain-Consistent_example :
    (state : JournalState ℕ) × (retain_prepared first.retained first.limits
        (event 2 started)
        4
        (some "turn")
      ≡ some state)
    × Consistent first.limits state second.snapshot
retain-Consistent_example =
    retain-Consistent first.limits first.retained first.snapshot second.snapshot (event 2 started) 4
      (some "turn") first-Sound.retained facts.applied

apply_event-result_example :
    ((second.snapshot ≡ first.snapshot) × (true ≡ false) × (2 ≤ first.snapshot.cursor.seq))
    ⊎ ((true ≡ true) × Applied first.snapshot (event 2 started) second.snapshot)
apply_event-result_example =
    apply_event-result first.snapshot (event 2 started) second.snapshot true facts.applied

apply_event-twice_example :
    apply_event second.snapshot (event 2 started) ≡ ok (second.snapshot, false)
apply_event-twice_example =
    apply_event-twice first.snapshot (event 2 started) second.snapshot facts.applied

from_history-tail_of_example :
    (record { items = answer ∷ []; start_index = 0; total_items = 1; capacity = 2 }
      ≡ tail_of (answer ∷ []) 2)
    × (0 < 2)
    × (2 ≤ 1024)
from_history-tail_of_example =
    from_history-tail_of (answer ∷ []) 2
      (record { items = answer ∷ []; start_index = 0; total_items = 1; capacity = 2 }) facts.from

append_unless_known-tail_of_example :
    append_unless_known (tail_of (answer ∷ []) 1) (user_message "j" []) false
    ≡ ok (tail_of (answer ∷ user_message "j" [] ∷ []) 1, true)
unfolding id_of
append_unless_known-tail_of_example =
    append_unless_known-tail_of (answer ∷ []) 1 (user_message "j" []) (omega arith) facts.unknown
      facts.named (omega arith)

replay-accepted_example : validate_for asked (page_of (replay third asked) empty) ≡ ok tt
replay-accepted_example =
    replay-accepted third asked (page_of (replay third asked) empty) third-Sound (sym facts.thread)
      facts.served

abbrev base : SessionSnapshot ℕ
base = third-Sound.retained.base

abbrev waiting : Worker ℕ
waiting = record { last_enqueued = base.cursor; output = [] }

catch_up_example :
    (events : List (SessionEventEnvelope ℕ)) × (replay_fixed_window
        (suc (third.snapshot.cursor.seq - base.cursor.seq))
        quiet
        (replay third)
        paging
        waiting
        none
      ≡ some (record { last_enqueued = third.snapshot.cursor; output = events }, ok true))
    × (apply_events base events ≡ ok third.snapshot)
catch_up_example =
    catch_up third third-Sound quiet (λ params. refl) (λ e. refl) paging (sym facts.thread)
      (omega arith) (omega arith) base
      (record {
        pre = [];
        post = third.retained.journal;
        split = refl;
        rest = third-Sound.retained.rebuilds;
      })
      waiting refl (suc (third.snapshot.cursor.seq - base.cursor.seq)) (omega arith)

run_subscription_worker-Consecutive_example :
    Consecutive behind sent_worker.output sent_worker.last_enqueued
run_subscription_worker-Consecutive_example =
    run_subscription_worker-Consecutive quiet 4 paging (replay second) behind none arrivals
      sent_worker waits facts.ran

abbrev first_request : SubscribeSessionParams
first_request = record asked { after = behind }

abbrev first_page : SubscribeSessionResult ℕ
first_page = record {
  events = event 2 started ∷ [];
  resume_after = record behind { seq = 2 };
  through = record behind { seq = 3 };
  has_more = true;
  gap = none;
}

replay_pages-returns_example :
    (result : Worker ℕ × Outcome SessionViewError Bool) × (replay_pages 3 quiet
        (replay third)
        paging
        (record { last_enqueued = behind; output = [] })
        first_request
        first_page
      ≡ some result)
replay_pages-returns_example =
    replay_pages-returns 3 quiet (replay third) paging
      (record { last_enqueued = behind; output = [] }) first_request first_page (omega arith)
      (λ no_gap. omega arith)

registered-Reached : Reached limits size display registered
registered-Reached =
    begins opened registered "o" running 1 6 (event 1 begun)
      (inserts [] opened "s" "o" "t" none [] [] 5 starts facts.inserted) facts.one_of

Reached-Sound_example : Sound first × (first.snapshot.cursor.thread_id ≡ "t")
Reached-Sound_example =
    Reached-Sound limits size display registered registered-Reached "t" first facts.stands

Reached-accepted_example :
    (r : SessionViewRecord ℕ) × (get registered "t" ≡ some r)
    × (r.owner ≡ "o")
    × (replay r asked_first ≡ ok (page_of (replay first asked_first) empty))
    × (validate_for asked_first (page_of (replay first asked_first) empty) ≡ ok tt)
Reached-accepted_example =
    Reached-accepted limits size display registered registered-Reached "o" asked_first
      (page_of (replay first asked_first) empty) facts.answered
