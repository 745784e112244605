-- ===== src/Store/State/Finalize.antt =====
-- `SessionRecord::finalize` and `recover`: the end of a run, asked for or found at a restart.
use mathlib.Core.List.{filter_map}
use whale_ai_sdk.Base.{
  ◌!=◌, ◌&&◌, ◌++◌, ◌==◌, ◌||◌, ◌∷◌, Bool, List, String, [], bool_eq, drop, false, if◌then◌else◌,
  is_none, is_some, map, max, none, not, option_eq, saturating_add, some, string_eq, true,
}
use whale_ai_sdk.Base.TreeMap.{TreeMap, get, insert}
use whale_ai_sdk.Protocol.Canonical.{CanonicalItem, CanonicalToolOutput, tool_result}
use whale_ai_sdk.Protocol.Recovery.{UnknownExecution}
use whale_ai_sdk.Protocol.Runs.{
  RunFailure, RunSnapshot, RunStatus, ToolExecutionRecord, UsageMetrics, is_terminal, run_status_eq,
}
use whale_ai_sdk.Store.Error.{Result, invalid, not_found, ok, ok_or, reject, ◌>>=◌, ◌>>◌}
use whale_ai_sdk.Store.State.Mutate.{usages}
use whale_ai_sdk.Store.State.Queries.{is_live}
use whale_ai_sdk.Store.State.Usage.{checked_usage}
use whale_ai_sdk.Store.State.Validate.{result_status}
use whale_ai_sdk.Store.Types.{FinalizedRun, SessionRecord, StoredCall, StoredRun}

abbrev pub dispatched_reason : String
dispatched_reason =
    "Tool execution was dispatched but no result was durably recorded. External side effects are unknown; the call was not retried."

abbrev pub undispatched_reason : String
undispatched_reason = "Tool was not dispatched before the run ended; the call was not retried."

-- What the loop over the calls of a run changes.
pub record Closing (V : Type 0) : Type 0 where
  pub history : List (CanonicalItem V)
  pub unknown_executions : List (UnknownExecution V)
  pub incomplete : Bool

abbrev incomplete_failure : RunFailure
incomplete_failure = record {
  code = "INCOMPLETE_EXECUTION";
  message = "Completed candidate contains unfinished calls";
}

abbrev pub recovery_failure : RunFailure
recovery_failure = record {
  code = "RECOVERY_INTERRUPTED";
  message = "Daemon stopped before the run was durably finalized; execution was not resumed";
}

abbrev pub is_cons {ℓ} : {A : Type ℓ} → List A → Bool
is_cons [] = false
is_cons (x ∷ xs) = true

module _ {V : Type 0} where
  abbrev reason_of : StoredCall V → String
  reason_of call = if is_some call.intent then dispatched_reason else undispatched_reason

  -- The outcome of a call at the end of its run: its own, or an error that says why there is none.
  unfoldable pub closing_outcome : StoredCall V → CanonicalItem V
  closing_outcome call = elim call.outcome [
    | some item ↦ item
    | none ↦
        tool_result call.result_item_id call.call_id (CanonicalToolOutput.text (reason_of call))
          true
  ]

  unfoldable pub close_call : StoredCall V → StoredCall V
  unfolding closing_outcome
  close_call call = record call { outcome = some (closing_outcome call); committed = true }

  unfoldable pub unknown_of : String → StoredCall V → ToolExecutionRecord V → UnknownExecution V
  unknown_of turn call intent = record {
    execution_id = call.execution_id;
    turn_id = turn;
    call_id = call.call_id;
    tool_name = call.tool_name;
    original_arguments = some intent.original_arguments;
    arguments = some intent.arguments;
    reason = dispatched_reason;
    acknowledged = false;
  }

  -- A call that was dispatched and has no outcome is an unknown execution.
  unfoldable pub unknowns_of : String → StoredCall V → List (UnknownExecution V)
  unfolding unknown_of
  unknowns_of turn call = elim call.outcome [
    | some item ↦ []
    | none ↦ elim call.intent [ none ↦ [] | some intent ↦ unknown_of turn call intent ∷ [] ]
  ]

  unfoldable pub closing_items : StoredCall V → List (CanonicalItem V)
  unfolding closing_outcome
  closing_items call = if call.committed then [] else closing_outcome call ∷ []

  -- The body of the loop, and the loop.
  close_one : String → StoredCall V → Closing V → Closing V
  unfolding closing_items unknowns_of
  close_one turn call c = record {
    history = c.history ++ closing_items call;
    unknown_executions = c.unknown_executions ++ unknowns_of turn call;
    incomplete = c.incomplete || is_none call.outcome;
  }

  unfoldable pub close_calls : String → List (StoredCall V) → Closing V → Closing V
  unfolding close_one
  close_calls turn [] c = c
  close_calls turn (call ∷ rest) c = close_calls turn rest (close_one turn call c)

  -- A completed candidate with unfinished calls has failed.
  unfoldable pub judge : Bool → RunSnapshot V → RunSnapshot V
  judge incomplete candidate =
      if incomplete && candidate.status == RunStatus.completed
      then record candidate { status = RunStatus.failed; error = some incomplete_failure }
      else candidate

  -- The terminal snapshot, from the candidate, the run and what closing its calls gave.
  unfoldable pub terminal :
      String → StoredRun V → RunSnapshot V → List (CanonicalItem V) → UsageMetrics → RunSnapshot V
  unfolding result_status
  terminal turn run candidate history usage =
      let items = drop run.history_start history in
      record candidate {
        items = items;
        pending_approvals = [];
        tool_executions = filter_map (λ (c : StoredCall V). c.intent) run.calls;
        usage = usage;
        last_seq = max candidate.last_seq (saturating_add run.snapshot.last_seq 1);
        result = some (record {
          turn_id = turn;
          thread_id = candidate.thread_id;
          status = result_status candidate.status;
          items = items;
          usage = usage;
        });
      }

  finalize_live :
      SessionRecord V
      → String
      → StoredRun V
      → RunSnapshot V
      → Result (SessionRecord V × FinalizedRun V)
  unfolding close_calls judge terminal close_call
  finalize_live r turn run candidate = do
    reject
        (candidate.thread_id != run.params.thread_id
          || candidate.turn_id != turn
          || not (is_terminal candidate.status))
        (invalid "Invalid terminal identity/status")
    let closed = close_calls turn run.calls (record {
      history = r.history;
      unknown_executions = r.unknown_executions;
      incomplete = false;
    })
    usage ← checked_usage (usages run.model_inputs)
    let final = terminal turn run (judge closed.incomplete candidate) closed.history usage
    ok (
      record r {
        history = closed.history;
        unknown_executions = closed.unknown_executions;
        runs =
            insert r.runs turn (record run { calls = map close_call run.calls; snapshot = final });
      },
      record { snapshot = final; history = closed.history },
    )

  -- A run that has ended is answered from its stored snapshot.
  settled :
      SessionRecord V
      → String
      → StoredRun V
      → RunSnapshot V
      → Result (SessionRecord V × FinalizedRun V)
  unfolding finalize_live
  settled r turn run candidate =
      if is_terminal run.snapshot.status
      then ok (r, record { snapshot = run.snapshot; history = r.history })
      else finalize_live r turn run candidate

  unfoldable pub finalize :
      SessionRecord V → String → RunSnapshot V → Result (SessionRecord V × FinalizedRun V)
  unfolding settled
  finalize r turn candidate = do
    run ← ok_or (get r.runs turn) not_found
    settled r turn run candidate

  abbrev pub live_turns : TreeMap (StoredRun V) → List String
  live_turns [] = []
  live_turns ((id, run) ∷ rest) =
      let others = live_turns rest in if is_live run then id ∷ others else others

  -- A run's snapshot as the candidate for its recovery.
  abbrev pub failing : StoredRun V → RunSnapshot V
  failing run = record (run.snapshot) { status = RunStatus.failed; error = some recovery_failure }

  -- The runs in turn: each becomes a failed one. A missing run would be a panic in the source.
  unfoldable pub fail_runs : SessionRecord V → List String → Result (SessionRecord V)
  fail_runs r [] = ok r
  fail_runs r (turn ∷ rest) = do
    run ← ok_or (get r.runs turn) not_found
    (r', finalized) ← finalize r turn (failing run)
    fail_runs r' rest

  -- The detached record, and whether anything changed.
  unfoldable pub recover : SessionRecord V → Result (SessionRecord V × Bool)
  recover r = if r.forgotten then ok (r, false) else do
    let turns = live_turns r.runs
    r' ← fail_runs r turns
    ok (record r' { owner = none; thread_id = none }, is_some r.owner || is_cons turns)
