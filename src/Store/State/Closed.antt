-- ===== src/Store/State/Closed.antt =====
-- What `finalize` does to a live run.
use whale_ai_sdk.Base.{
  ◌++◌, ◌==◌, ◌||◌, ◌∷◌, Bool, Bool-cases, List, String, [], any, append-nil, append_assoc, arith,
  concat_map, false, inl, inr, is_none, map, refl, some, string_eq, true, ◌≡◌, ◌∙◌, sym,
}
use whale_ai_sdk.Base.TreeMap.{get, insert}
use whale_ai_sdk.Protocol.Runs.{RunSnapshot, UsageMetrics, is_terminal, run_status_eq}
use whale_ai_sdk.Store.Backend.Extends.{Keeps, Prefix-refl}
use whale_ai_sdk.Store.Error.{Result-split, ok}
use whale_ai_sdk.Store.State.Finalize.{
  Closing, close_call, close_calls, closing_items, finalize, judge, terminal, unknowns_of,
}
use whale_ai_sdk.Store.State.Kept.{CallsKept, replaced-runs}
use whale_ai_sdk.Store.State.Mutate.{usages}
use whale_ai_sdk.Store.State.Usage.{checked_usage}
use whale_ai_sdk.Store.Types.{FinalizedRun, SessionRecord, StoredCall, StoredRun}

module _ {V : Type 0} where
  pub history-close_calls :
      (turn : String) (calls : List (StoredCall V)) (c : Closing V)
      → (close_calls turn calls c).history ≡ c.history ++ concat_map closing_items calls
  unfolding close_calls
  history-close_calls turn [] c = sym (append-nil c.history)
  history-close_calls turn (x ∷ calls) c =
      history-close_calls turn calls _ ∙ append_assoc c.history (closing_items x) _

  pub unknown_executions-close_calls :
      (turn : String) (calls : List (StoredCall V)) (c : Closing V)
      → (close_calls turn calls c).unknown_executions
        ≡ c.unknown_executions ++ concat_map (unknowns_of turn) calls
  unfolding close_calls
  unknown_executions-close_calls turn [] c = sym (append-nil c.unknown_executions)
  unknown_executions-close_calls turn (x ∷ calls) c =
      unknown_executions-close_calls turn calls _
      ∙ append_assoc c.unknown_executions (unknowns_of turn x) _

  pub incomplete-close_calls :
      (turn : String) (calls : List (StoredCall V)) (c : Closing V)
      → (close_calls turn calls c).incomplete
        ≡ (c.incomplete || any (λ (x : StoredCall V). is_none x.outcome) calls)
  unfolding close_calls
  incomplete-close_calls turn [] c = ground arith
  incomplete-close_calls turn (x ∷ calls) c = ground (
    arith,
    incomplete-close_calls turn calls (record {
      history = c.history ++ closing_items x;
      unknown_executions = c.unknown_executions ++ unknowns_of turn x;
      incomplete = c.incomplete || is_none x.outcome;
    }),
  )

  close_call-kept : (calls : List (StoredCall V)) → CallsKept calls (map close_call calls)
  unfolding close_call
  close_call-kept [] id c e = cc
  close_call-kept (x ∷ calls) id c e = elim (Bool-cases (x.call_id == id)) [
    | inl hit ↦ (close_call x, ground arith, ground arith)
    | inr miss ↦
        let (d, found, h) = close_call-kept calls id c (ground arith) in (d, ground arith, h)
  ]

  -- The run that a successful `finalize` of a live run stores, and the rest of the record.
  abbrev pub closing : SessionRecord V → String → StoredRun V → Closing V
  closing r turn run = close_calls turn run.calls (record {
    history = r.history;
    unknown_executions = r.unknown_executions;
    incomplete = false;
  })

  abbrev pub final_snapshot :
      SessionRecord V → String → StoredRun V → RunSnapshot V → UsageMetrics → RunSnapshot V
  final_snapshot r turn run candidate usage =
      let c = closing r turn run in terminal turn run (judge c.incomplete candidate) c.history usage

  abbrev pub finalized :
      SessionRecord V → String → StoredRun V → RunSnapshot V → UsageMetrics → SessionRecord V
  finalized r turn run candidate usage =
      let c = closing r turn run in
      record r {
        history = c.history;
        unknown_executions = c.unknown_executions;
        runs = insert r.runs turn (record run {
          calls = map close_call run.calls;
          snapshot = final_snapshot r turn run candidate usage;
        });
      }

  -- The candidate fits the run.
  abbrev pub FitsRun : String → StoredRun V → RunSnapshot V → Type 0
  FitsRun turn run candidate =
      (candidate.thread_id ≡ run.params.thread_id)
      × (candidate.turn_id ≡ turn)
      × (is_terminal candidate.status ≡ true)

  pub finalize_inverse :
      (r : SessionRecord V) (turn : String) (run : StoredRun V) (candidate : RunSnapshot V)
      (r' : SessionRecord V) (f : FinalizedRun V)
      → get r.runs turn ≡ some run
      → is_terminal run.snapshot.status ≡ false
      → finalize r turn candidate ≡ ok (r', f)
      → (usage : UsageMetrics) × (checked_usage (usages run.model_inputs) ≡ ok usage)
        × FitsRun turn run candidate
        × (r' ≡ finalized r turn run candidate usage)
        × (f.snapshot ≡ final_snapshot r turn run candidate usage)
        × (f.history ≡ r'.history)
  unfolding finalize
  finalize_inverse r turn run candidate r' f found live h =
      elim (Result-split (checked_usage (usages run.model_inputs))) [
        | inr (e, overflow) ↦ absurd (ground arith)
        | inl (usage, total) ↦
            (usage, total, ground arith, ground arith, ground arith, ground arith)
      ]

  pub finalize_forward :
      (r : SessionRecord V) (turn : String) (run : StoredRun V) (candidate : RunSnapshot V)
      (usage : UsageMetrics)
      → get r.runs turn ≡ some run
      → is_terminal run.snapshot.status ≡ false
      → FitsRun turn run candidate
      → checked_usage (usages run.model_inputs) ≡ ok usage
      → finalize r turn candidate
        ≡ ok (
          finalized r turn run candidate usage,
          record {
            snapshot = final_snapshot r turn run candidate usage;
            history = (closing r turn run).history;
          },
        )
  unfolding finalize
  finalize_forward r turn run candidate usage found live fits total = ground arith

  pub judge-terminal :
      (b : Bool) (s : RunSnapshot V)
      → is_terminal s.status ≡ true
      → is_terminal (judge b s).status ≡ true
  unfolding judge is_terminal
  judge-terminal b s h = ground arith

  status-final_snapshot :
      (r : SessionRecord V) (turn : String) (run : StoredRun V) (candidate : RunSnapshot V)
      (usage : UsageMetrics)
      → (final_snapshot r turn run candidate usage).status
        ≡ (judge (closing r turn run).incomplete candidate).status
  unfolding terminal
  status-final_snapshot r turn run candidate usage = refl

  pub finalized-Keeps :
      (r : SessionRecord V) (turn : String) (run : StoredRun V) (candidate : RunSnapshot V)
      (usage : UsageMetrics)
      → get r.runs turn ≡ some run
      → is_terminal run.snapshot.status ≡ false
      → Keeps r (finalized r turn run candidate usage)
  finalized-Keeps r turn run candidate usage found live = record {
    history = (concat_map closing_items run.calls, history-close_calls turn run.calls _);
    identities = Prefix-refl r.historical_thread_ids;
    runs = replaced-runs r.runs turn run _ found (record {
      thread_id = refl;
      turn_id = refl;
      input_items = refl;
      effective_options = refl;
      history_start = refl;
      snapshot = λ ended. absurd (ground arith);
      calls = close_call-kept run.calls;
    });
  }
