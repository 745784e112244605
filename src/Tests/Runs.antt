-- ===== src/Tests/Runs.antt =====
-- The life of a run, at concrete inputs.

use whale_ai_sdk.Base.{
  ◌≢◌, Bool, String, [], any_repeat, ap, arith, bool_eq, contains, false, list_eq, nat_eq, none,
  option_eq, pair_eq, refl, some, starts_with, string_dec, string_eq, subst, sym, true, ◌∙◌, ◌∷◌,
  ◌≡◌,
}
use native.Mathlib.Decide.{ℕ_discrete}
use mathlib.Core.List.{filter_map}
use mathlib.Core.Option.{Option-elim}
use whale_ai_sdk.Base.Text.{all_hexdigits, is_blank, is_empty}
use whale_ai_sdk.Base.TreeMap.{get, insert, remove}
use whale_ai_sdk.Protocol.Canonical.{id_of, item_eq}
use whale_ai_sdk.Protocol.Limits.{count_writes, limits_validate, serialized_bytes}
use whale_ai_sdk.Protocol.Runs.{
  execution_eq, f32_eq, is_nan, is_terminal, options_eq, params_eq, run_status_eq, temperature_eq,
  turn_status_eq, usage_eq,
}
use whale_ai_sdk.Protocol.Recovery.{defaults_validate, key_validate}
use whale_ai_sdk.Store.Runtime.{new_record}
use whale_ai_sdk.Store.State.Queries.{active, configured_limits, history_bytes, unresolved}
use whale_ai_sdk.Store.State.Begin.{
  accept, admission, bad_acceptance, begin, begin_new, history_limit,
}
use whale_ai_sdk.Store.State.Mutate.{
  apply_step, bad_model_item, bad_step_order, batch_step, budget, canonical_result, dispatch_step,
  finish_step, input_step, item_step, mutate, outcome_step, record_call, settle,
}
use whale_ai_sdk.Store.State.Usage.{add_usage, checked_usage, no_usage, sum_usage}
use whale_ai_sdk.Store.State.Finalize.{
  close_call, close_calls, closing_items, closing_outcome, fail_runs, finalize, judge, recover,
  terminal, unknowns_of,
}
use whale_ai_sdk.Store.State.Validate.{bad_unknowns, check_runs, result_status, validate}
use whale_ai_sdk.Tests.Json.{Json, json_dec, json_env, json_eq}
use whale_ai_sdk.Store.Error.{ok}
use whale_ai_sdk.Store.Backend.Extends.{Keeps-refl}
use whale_ai_sdk.Store.Types.{SessionRecord, StoredRun, dispatch_intent}
use whale_ai_sdk.Tests.Session.{
  begun, closed, completed, created, dispatched, ended, execution, finished, fresh, live_run,
  params, running,
}
use whale_ai_sdk.Store.State.Admitted.{Begun, begin-Begun, begin_retry}
use whale_ai_sdk.Store.State.Dispatched.{dispatch_once}
use whale_ai_sdk.Store.State.Ended.{Ended, finalize-Ended, finalize_twice}
use whale_ai_sdk.Store.State.Recovered.{AllCanFail, CanFail, Detached, recover-Detached}

record Facts : Type 0 where
  pub begins : begin created params running Json.nil ≡ ok (begun, true)
  pub same : params_eq params params ≡ true
  pub sends :
      mutate finished fresh "turn" (dispatch_intent "call" execution) ≡ ok (dispatched, none)
  pub ends : finalize dispatched "turn" completed ≡ ok (ended, closed)
  pub stored : get dispatched.runs "turn" ≡ some live_run
  pub live : is_terminal live_run.snapshot.status ≡ false

facts : Facts
unfolding any_repeat bool_eq contains list_eq string_dec string_eq option_eq nat_eq pair_eq
    starts_with ℕ_discrete filter_map Option-elim is_empty is_blank all_hexdigits get insert remove
    id_of item_eq limits_validate count_writes serialized_bytes f32_eq is_nan is_terminal options_eq
    params_eq temperature_eq run_status_eq turn_status_eq usage_eq execution_eq key_validate
    defaults_validate new_record active unresolved configured_limits history_bytes begin begin_new
    bad_acceptance admission accept history_limit mutate budget apply_step bad_model_item
    bad_step_order batch_step canonical_result dispatch_step finish_step input_step item_step
    outcome_step record_call settle add_usage checked_usage sum_usage finalize recover fail_runs
    close_calls closing_outcome close_call unknowns_of closing_items judge terminal validate
    check_runs bad_unknowns result_status json_env json_eq json_dec
facts = record { begins = refl; same = refl; sends = refl; ends = refl; stored = refl; live = refl }

-- The only entry of a map.
only_entry :
    (x : StoredRun Json) (turn : String) (run : StoredRun Json)
    → get (("turn", x) ∷ []) turn ≡ some run
    → (turn ≡ "turn") × (run ≡ x)
unfolding get
only_entry x turn run e = elim (string_eq.dec turn "turn") [
  | yes here ↦ (here, ground arith)
  | no other ↦ absurd (ground arith)
]

begun_run : StoredRun Json
begun_run = record {
  params = params;
  snapshot = record running { items = params.input_items };
  effective_options = Json.nil;
  history_start = 0;
  model_inputs = [];
  calls = [];
}

CanFail-first : CanFail "turn" begun_run
unfolding begun_run checked_usage sum_usage filter_map
CanFail-first = record { thread = refl; named = refl; usage = no_usage; fits = refl }

begun_runs : begun.runs ≡ ("turn", begun_run) ∷ []
unfolding any_repeat bool_eq contains list_eq string_dec string_eq option_eq nat_eq pair_eq
    starts_with ℕ_discrete filter_map Option-elim is_empty is_blank all_hexdigits get insert remove
    id_of item_eq limits_validate count_writes serialized_bytes f32_eq is_nan is_terminal options_eq
    params_eq temperature_eq run_status_eq turn_status_eq usage_eq execution_eq key_validate
    defaults_validate new_record active unresolved configured_limits history_bytes begin begin_new
    bad_acceptance admission accept history_limit mutate budget apply_step bad_model_item
    bad_step_order batch_step canonical_result dispatch_step finish_step input_step item_step
    outcome_step record_call settle add_usage checked_usage sum_usage finalize recover fail_runs
    close_calls closing_outcome close_call unknowns_of closing_items judge terminal validate
    check_runs bad_unknowns result_status json_env json_eq json_dec begun_run
begun_runs = refl

can_fail : AllCanFail begun
can_fail turn run e =
    let (here, same) =
      only_entry begun_run turn run (ap (λ runs. get runs turn) (sym begun_runs) ∙ e) in
    subst (λ t. CanFail t run) (sym here) (subst (CanFail "turn") (sym same) CanFail-first)

present : begun.forgotten ≡ false
unfolding any_repeat bool_eq contains list_eq string_dec string_eq option_eq nat_eq pair_eq
    starts_with ℕ_discrete filter_map Option-elim is_empty is_blank all_hexdigits get insert remove
    id_of item_eq limits_validate count_writes serialized_bytes f32_eq is_nan is_terminal options_eq
    params_eq temperature_eq run_status_eq turn_status_eq usage_eq execution_eq key_validate
    defaults_validate new_record active unresolved configured_limits history_bytes begin begin_new
    bad_acceptance admission accept history_limit mutate budget apply_step bad_model_item
    bad_step_order batch_step canonical_result dispatch_step finish_step input_step item_step
    outcome_step record_call settle add_usage checked_usage sum_usage finalize recover fail_runs
    close_calls closing_outcome close_call unknowns_of closing_items judge terminal validate
    check_runs bad_unknowns result_status json_env json_eq json_dec
present = refl

recover-Detached_example :
    (r' : SessionRecord Json) × (changed : Bool) × (recover begun ≡ ok (r', changed))
    × Detached begun r'
recover-Detached_example = recover-Detached begun present can_fail

begin-Begun_example : Begun created params running Json.nil begun
begin-Begun_example = begin-Begun created params running Json.nil begun facts.begins

begin_retry_example : begin begun params completed Json.nil ≡ ok (begun, false)
unfolding string_eq json_eq json_dec
begin_retry_example =
    begin_retry created params running completed Json.nil Json.nil begun true facts.same
      facts.begins

dispatch_once_example :
    mutate dispatched fresh "turn" (dispatch_intent "call" execution) ≢ ok (dispatched, none)
dispatch_once_example =
    dispatch_once finished dispatched dispatched dispatched fresh fresh "turn" "call" execution
      execution none none facts.sends (Keeps-refl dispatched)

finalize-Ended_example : Ended dispatched "turn" live_run ended closed
finalize-Ended_example =
    finalize-Ended dispatched "turn" live_run completed ended closed facts.stored facts.live
      facts.ends

finalize_twice_example : finalize ended "turn" running ≡ ok (ended, closed)
finalize_twice_example = finalize_twice dispatched "turn" completed running ended closed facts.ends
