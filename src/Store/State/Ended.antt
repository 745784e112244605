-- ===== src/Store/State/Ended.antt =====
-- The contract of `finalize`.
use whale_ai_sdk.Base.{
  ◌++◌, ◌∷◌, All, Bool-cases, List, Option-cases, String, [], any, arith, concat_map, false, inl,
  inr, is_none, is_some, map, none, refl, some, string_eq, subst, true, ◌≡◌, ◌∙◌, sym,
}
use whale_ai_sdk.Base.TreeMap.{get, get-insert}
use whale_ai_sdk.Protocol.Canonical.{CanonicalItem}
use whale_ai_sdk.Protocol.Recovery.{UnknownExecution}
use whale_ai_sdk.Protocol.Runs.{RunSnapshot, RunStatus, UsageMetrics, is_terminal, run_status_eq}
use whale_ai_sdk.Store.Error.{err, not_found, ok}
use whale_ai_sdk.Store.State.Closed.{
  closing, final_snapshot, finalize_inverse, finalized, history-close_calls, incomplete-close_calls,
  judge-terminal, unknown_executions-close_calls,
}
use whale_ai_sdk.Store.State.Finalize.{
  close_call, closing_items, finalize, judge, terminal, unknowns_of,
}
use whale_ai_sdk.Store.State.Gains.{
  Closes, Gains, Uncertain, close_call-Closes, closing_items-Gains, unknowns_of-Uncertain,
}
use whale_ai_sdk.Store.Types.{FinalizedRun, SessionRecord, StoredCall, StoredRun}

module _ {V : Type 0} where
  abbrev pub IsClosed : StoredCall V → Type 0
  IsClosed c = (c.committed ≡ true) × (is_some c.outcome ≡ true)

  close_call-IsClosed : (calls : List (StoredCall V)) → All IsClosed (map close_call calls)
  unfolding close_call
  close_call-IsClosed [] = tt
  close_call-IsClosed (c ∷ calls) = ((refl, refl), close_call-IsClosed calls)

  -- The run that `finalize` leaves, in terms of the live one.
  pub record Ended (r : SessionRecord V) (turn : String) (run : StoredRun V) (r' : SessionRecord V)
      (f : FinalizedRun V) : Type 0 where
    pub run' : StoredRun V
    pub stored : get r'.runs turn ≡ some run'
    pub answered : f.snapshot ≡ run'.snapshot
    pub ended : is_terminal run'.snapshot.status ≡ true
    pub closed : All IsClosed run'.calls
    pub outcomes : Closes run.calls run'.calls
    pub gained : List (CanonicalItem V)
    pub history : r'.history ≡ r.history ++ gained
    pub gains : Gains run.calls gained
    pub unknowns : List (UnknownExecution V)
    pub unknown : r'.unknown_executions ≡ r.unknown_executions ++ unknowns
    pub uncertain : Uncertain turn run.calls unknowns
    pub honest :
        run'.snapshot.status ≡ RunStatus.completed
        → any (λ (c : StoredCall V). is_none c.outcome) run.calls ≡ false

  final-honest :
      (r : SessionRecord V) (turn : String) (run : StoredRun V) (candidate : RunSnapshot V)
      (usage : UsageMetrics)
      → (final_snapshot r turn run candidate usage).status ≡ RunStatus.completed
      → any (λ (c : StoredCall V). is_none c.outcome) run.calls ≡ false
  unfolding terminal judge
  final-honest r turn run candidate usage h = ground (
    arith,
    incomplete-close_calls turn run.calls (record {
      history = r.history;
      unknown_executions = r.unknown_executions;
      incomplete = false;
    }),
  )

  pub final-terminal :
      (r : SessionRecord V) (turn : String) (run : StoredRun V) (candidate : RunSnapshot V)
      (usage : UsageMetrics)
      → is_terminal candidate.status ≡ true
      → is_terminal (final_snapshot r turn run candidate usage).status ≡ true
  unfolding terminal
  final-terminal r turn run candidate usage h =
      judge-terminal (closing r turn run).incomplete candidate h

  finalized-Ended :
      (r : SessionRecord V) (turn : String) (run : StoredRun V) (candidate : RunSnapshot V)
      (usage : UsageMetrics) (f : FinalizedRun V)
      → is_terminal candidate.status ≡ true
      → f.snapshot ≡ final_snapshot r turn run candidate usage
      → Ended r turn run (finalized r turn run candidate usage) f
  finalized-Ended r turn run candidate usage f t e = record {
    run' = record run {
      calls = map close_call run.calls;
      snapshot = final_snapshot r turn run candidate usage;
    };
    stored = rw (get-insert r.runs turn turn _) (ground arith);
    answered = e;
    ended = final-terminal r turn run candidate usage t;
    closed = close_call-IsClosed run.calls;
    outcomes = close_call-Closes run.calls;
    gained = concat_map closing_items run.calls;
    history = history-close_calls turn run.calls _;
    gains = closing_items-Gains run.calls;
    unknowns = concat_map (unknowns_of turn) run.calls;
    unknown = unknown_executions-close_calls turn run.calls _;
    uncertain = unknowns_of-Uncertain turn run.calls;
    honest = final-honest r turn run candidate usage;
  }

  -- A successful `finalize` of a live run ends it: the stored snapshot is the answer and is
  -- terminal, every call is committed with its outcome and otherwise as it was, the history gains
  -- exactly one outcome for each call that was not committed, in the order of the calls, the unknown
  -- executions gain exactly one for each call that was dispatched and had no outcome, and the run is
  -- completed only if every call had one. The outcome of a call without one is a failed result whose
  -- reason says whether the call had been dispatched.
  pub finalize-Ended :
      (r : SessionRecord V) (turn : String) (run : StoredRun V) (candidate : RunSnapshot V)
      (r' : SessionRecord V) (f : FinalizedRun V)
      → get r.runs turn ≡ some run
      → is_terminal run.snapshot.status ≡ false
      → finalize r turn candidate ≡ ok (r', f)
      → Ended r turn run r' f
  finalize-Ended r turn run candidate r' f found live h =
      let (usage, total, fits, e, snap, hist) =
        finalize_inverse r turn run candidate r' f found live h in
      subst (λ x. Ended r turn run x f) (sym e)
        (finalized-Ended r turn run candidate usage f fits.2 snap)

  pub finalize_ended :
      (r : SessionRecord V) (turn : String) (run : StoredRun V) (candidate : RunSnapshot V)
      → get r.runs turn ≡ some run
      → is_terminal run.snapshot.status ≡ true
      → finalize r turn candidate ≡ ok (r, record { snapshot = run.snapshot; history = r.history })
  unfolding finalize
  finalize_ended r turn run candidate found ended = ground arith

  finalize_missing :
      (r : SessionRecord V) (turn : String) (candidate : RunSnapshot V)
      → get r.runs turn ≡ none
      → finalize r turn candidate ≡ err not_found
  unfolding finalize
  finalize_missing r turn candidate missing = ground arith

  -- After a successful `finalize` every further one, with whatever candidate, returns the same
  -- record and the same answer.
  pub finalize_twice :
      (r : SessionRecord V) (turn : String) (first second : RunSnapshot V) (r' : SessionRecord V)
      (f : FinalizedRun V)
      → finalize r turn first ≡ ok (r', f)
      → finalize r' turn second ≡ ok (r', f)
  finalize_twice r turn first second r' f h = elim (Option-cases (get r.runs turn)) [
    | inl missing ↦ cc (finalize_missing r turn first missing)
    | inr (run, found) ↦ elim (Bool-cases (is_terminal run.snapshot.status)) [
      | inl ended ↦ ground (
        arith,
        finalize_ended r turn run first found ended,
        finalize_ended r turn run second found ended,
      )
      | inr live ↦
          let e = finalize-Ended r turn run first r' f found live h in
          let (usage, total, fits, same, snap, hist) =
            finalize_inverse r turn run first r' f found live h in
          finalize_ended r' turn e.run' second e.stored e.ended ∙ ground (arith, e.answered, hist)
    ]
  ]
