-- ===== src/Protocol/Views/Stream.antt =====
-- `apply_stream_event` of crates/whale-protocol/src/session_views.rs.
use Prim.Native.String.{◌++◌ as append}
use whale_ai_sdk.Base.{
  ◌!=◌, ◌++◌, ◌==◌, ◌||◌, ◌∷◌, Bool, List, Option, String, [], any, if◌then◌else◌, max, nat_eq,
  none, some, string_eq, ℕ,
}
use whale_ai_sdk.Base.Outcome.{Outcome, err, ok, or_err, refuse, ◌>>=◌, ◌>>◌}
use whale_ai_sdk.Protocol.Canonical.{CanonicalItem, MessagePhase, id_of}
use whale_ai_sdk.Protocol.Events.{
  AgentStreamEvent, RunEvent, approval_requested, item_completed, item_started, reasoning_delta,
  reasoning_signature, stream_turn_id, text_delta, tool_call_delta, tool_execution_started,
  tool_progress, turn_completed, turn_failed, turn_started,
}
use whale_ai_sdk.Protocol.Runs.{RunSnapshot, RunStatus, ToolExecutionRecord}
use whale_ai_sdk.Protocol.Views.Types.{
  InProgressItemProjection, SessionRunView, SessionSnapshot, cursor_eq,
}
use whale_ai_sdk.Protocol.Views.Window.{append_unless_known, is_known}

-- `draft_mut` and the change through the reference: the first draft of that identity is replaced.
unfoldable pub change_draft :
    String
    → (InProgressItemProjection → InProgressItemProjection)
    → List InProgressItemProjection
    → Outcome String (List InProgressItemProjection)
change_draft item_id change [] = err (append "No in-progress projection exists for item " item_id)
change_draft item_id change (draft ∷ drafts) =
    let rest = change_draft item_id change drafts in
    if draft.item_id == item_id
    then ok (change draft ∷ drafts)
    else (do changed ← rest; ok (draft ∷ changed))

-- `retain`.
unfoldable pub remove_draft : String → List InProgressItemProjection → List InProgressItemProjection
remove_draft item_id [] = []
remove_draft item_id (draft ∷ drafts) =
    let rest = remove_draft item_id drafts in
    if draft.item_id == item_id then rest else draft ∷ rest

abbrev pub has_draft : String → List InProgressItemProjection → Bool
has_draft item_id drafts = any (λ draft. draft.item_id == item_id) drafts

module _ {V : Type 0} where
  -- The first record of that call, changed.
  unfoldable pub change_execution :
      String → V → V → List (ToolExecutionRecord V) → List (ToolExecutionRecord V)
  change_execution call_id original arguments [] =
      record { call_id = call_id; original_arguments = original; arguments = arguments } ∷ []
  change_execution call_id original arguments (r ∷ records) =
      let rest = change_execution call_id original arguments records in
      if r.call_id == call_id
      then record r { original_arguments = original; arguments = arguments } ∷ records
      else r ∷ rest

  unfoldable pub append_canonical_once :
      List (CanonicalItem V) → CanonicalItem V → List (CanonicalItem V)
  append_canonical_once history item =
      if is_known (id_of item) history then history else history ++ item ∷ []

  unfoldable pub with_run : SessionSnapshot V → SessionRunView V → SessionSnapshot V
  with_run s run = record s { active_run = some run }

  unfoldable pub with_snapshot :
      SessionSnapshot V → SessionRunView V → RunSnapshot V → SessionSnapshot V
  with_snapshot s run snapshot = record s { active_run = some (record run { snapshot = snapshot }) }

  -- The drafts of the run, changed by a delta.
  unfoldable pub change_run_draft :
      SessionSnapshot V
      → SessionRunView V
      → String
      → (InProgressItemProjection → InProgressItemProjection)
      → Outcome String (SessionSnapshot V)
  change_run_draft s run item_id change = do
    drafts ← change_draft item_id change run.in_progress_items
    ok (record s { active_run = some (record run { in_progress_items = drafts }) })

  -- `ItemStarted`.
  unfoldable pub start_item :
      SessionSnapshot V
      → SessionRunView V
      → String
      → String
      → Option MessagePhase
      → SessionSnapshot V
  start_item s run item_id item_type phase =
      let draft : InProgressItemProjection = record {
        item_id = item_id;
        item_type = item_type;
        phase = phase;
        text = "";
        call_id = none;
        raw_arguments = "";
        reasoning_signature = none;
      } in
      if is_known item_id s.history.items || has_draft item_id run.in_progress_items
      then record s { active_run = some run }
      else record s {
        active_run = some (record run { in_progress_items = run.in_progress_items ++ draft ∷ [] });
      }

  -- `ItemCompleted`.
  unfoldable pub complete_item :
      SessionSnapshot V → SessionRunView V → CanonicalItem V → Outcome String (SessionSnapshot V)
  complete_item s run item = do
    history ← append_unless_known s.history item (is_known (id_of item) run.snapshot.items)
    ok (record s {
      active_run = some (record run {
        in_progress_items = remove_draft (id_of item) run.in_progress_items;
        snapshot = record run.snapshot { items = append_canonical_once run.snapshot.items item };
      });
      history = history.0;
    })

  -- `ApprovalRequested`.
  unfoldable pub request_approval :
      RunSnapshot V → String → CanonicalItem V → Option String → RunSnapshot V
  request_approval snapshot request_id call reason = record snapshot {
    status = RunStatus.waiting_approval;
    pending_approvals =
        if any (λ approval. approval.request_id == request_id) snapshot.pending_approvals
        then snapshot.pending_approvals
        else snapshot.pending_approvals
          ++ record { request_id = request_id; tool_call = call; reason = reason } ∷ [];
  }

  -- The `match` of `apply_stream_event`.
  unfoldable pub stream_change :
      SessionSnapshot V → SessionRunView V → AgentStreamEvent V → Outcome String (SessionSnapshot V)
  stream_change s run (tool_progress turn call message progress) = ok (with_run s run)
  stream_change s run (turn_completed turn thread usage) = ok (with_run s run)
  stream_change s run (turn_failed turn thread code message) = ok (with_run s run)
  stream_change s run (tool_execution_started turn call original arguments) = ok (
      with_snapshot s run (record run.snapshot {
        tool_executions = change_execution call original arguments run.snapshot.tool_executions;
      }))
  stream_change s run (turn_started turn thread) = do
    refuse (thread != s.summary.thread_id) "Turn start belongs to another thread"
    ok (with_snapshot s run (record run.snapshot { status = RunStatus.running }))
  stream_change s run (item_started turn item kind phase) = ok (start_item s run item kind phase)
  stream_change s run (text_delta turn item delta) =
      change_run_draft s run item (λ draft. record draft { text = append draft.text delta })
  stream_change s run (reasoning_delta turn item delta) =
      change_run_draft s run item (λ draft. record draft { text = append draft.text delta })
  stream_change s run (reasoning_signature turn item signature) =
      change_run_draft s run item (λ draft. record draft { reasoning_signature = some signature })
  stream_change s run (tool_call_delta turn item call delta) = change_run_draft s run item (λ draft.
      record draft { call_id = some call; raw_arguments = append draft.raw_arguments delta })
  stream_change s run (item_completed turn item) = complete_item s run item
  stream_change s run (approval_requested turn request call reason) =
      ok (with_snapshot s run (request_approval run.snapshot request call reason))

  unfoldable pub apply_stream_event :
      SessionSnapshot V → RunEvent V → AgentStreamEvent V → ℕ → Outcome String (SessionSnapshot V)
  apply_stream_event s event streamed occurred_at_ms = do
    run ← or_err s.active_run "Run event has no active Run projection"
    refuse (run.snapshot.turn_id != event.turn_id) "Run event belongs to another active Run"
    refuse (stream_turn_id streamed != event.turn_id) "Stream event belongs to another Run"
    stream_change s
        (record run {
          snapshot = record run.snapshot { last_seq = max run.snapshot.last_seq event.seq };
          updated_at_ms = max run.updated_at_ms occurred_at_ms;
        })
        streamed
