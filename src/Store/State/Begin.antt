-- ===== src/Store/State/Begin.antt =====
-- `SessionRecord::begin`: the admission of a run.
use whale_ai_sdk.Base.{
  Bool, Eq, List, Option, [], any_repeat, false, if◌then◌else◌, is_some, leb, length, ltb, map,
  nat_eq, none, option_eq, some, string_eq, true, ℕ, ◌!=◌, ◌&&◌, ◌++◌, ◌==◌, ◌||◌,
}
use whale_ai_sdk.Base.Text.{is_empty}
use whale_ai_sdk.Base.TreeMap.{get, insert}
use whale_ai_sdk.Protocol.Canonical.{CanonicalItem, id_of}
use whale_ai_sdk.Protocol.Limits.{SessionLimits}
use whale_ai_sdk.Protocol.Runs.{is_terminal, params_eq, RunSnapshot, StartTurnParams}
use whale_ai_sdk.Store.Env.{Env}
use whale_ai_sdk.Store.Error.{
  ◌>>=◌, ◌>>◌, active, conflict, err, invalid, limit_exceeded, ok, reject, Result,
  unknown_executions,
}
use whale_ai_sdk.Store.State.Queries
use whale_ai_sdk.Store.State.Queries.{configured_limits, history_bytes, unresolved}
use whale_ai_sdk.Store.Types.{SessionRecord}

module _ {V : Type 0} ⦃v : Eq V⦄ ⦃env : Env V⦄ where
  unfoldable pub bad_acceptance : SessionRecord V → StartTurnParams V → RunSnapshot V → Bool
  bad_acceptance r params snapshot =
      r.thread_id != some params.thread_id
      || is_empty params.turn_id
      || params.max_steps == 0
      || params.timeout_ms == some 0
      || snapshot.thread_id != params.thread_id
      || snapshot.turn_id != params.turn_id
      || is_terminal snapshot.status
      || is_some snapshot.result

  turn_limit : SessionRecord V → Option ℕ → Result (Unit {0})
  turn_limit r none = ok tt
  turn_limit r (some limit) =
      reject (leb limit (length r.runs)) (limit_exceeded "max_accepted_turns")

  unfoldable pub history_limit :
      List (CanonicalItem V) → List (CanonicalItem V) → Option ℕ → Result (Unit {0})
  history_limit history input none = ok tt
  history_limit history input (some limit) = do
    bytes ← history_bytes history input
    reject (ltb limit bytes) (limit_exceeded "max_history_bytes")

  unfoldable pub admission :
      SessionRecord V → StartTurnParams V → Option SessionLimits → Result (Unit {0})
  unfolding turn_limit history_limit
  admission r params none = ok tt
  admission r params (some limits) = do
    turn_limit r limits.max_accepted_turns
    history_limit r.history params.input_items limits.max_history_bytes

  -- The run that is stored when every check has passed.
  unfoldable pub accept : SessionRecord V → StartTurnParams V → RunSnapshot V → V → SessionRecord V
  accept r params snapshot options = record r {
    history = r.history ++ params.input_items;
    runs = insert r.runs params.turn_id (record {
      params = params;
      snapshot = record snapshot { items = params.input_items };
      effective_options = options;
      history_start = length r.history;
      model_inputs = [];
      calls = [];
    });
  }

  unfoldable pub begin_new :
      SessionRecord V → StartTurnParams V → RunSnapshot V → V → Result (SessionRecord V × Bool)
  begin_new r params snapshot options = do
    reject (Queries.active r) active
    reject (unresolved r) unknown_executions
    reject (bad_acceptance r params snapshot) (invalid "Invalid run acceptance")
    limits ← configured_limits r.configuration
    admission r params limits
    reject (any_repeat (map id_of r.history) (map id_of params.input_items))
        (invalid "Duplicate input item ID")
    ok (accept r params snapshot options, true)

  -- The state after `begin`, and whether a run was added.
  unfoldable pub begin :
      SessionRecord V → StartTurnParams V → RunSnapshot V → V → Result (SessionRecord V × Bool)
  unfolding begin_new
  begin r params snapshot options = elim (get r.runs params.turn_id) [
    | none ↦ begin_new r params snapshot options
    | some old ↦
        if params_eq old.params params && old.effective_options == options
        then ok (r, false)
        else err conflict
  ]
