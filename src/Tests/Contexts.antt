-- ===== src/Tests/Contexts.antt =====
-- Configurations, contexts and usage, at concrete inputs.
use whale_ai_sdk.Base.{
  ◌++◌, some, String, ◌+◌, u64_max, ◌<◌, ◌≡◌, ◌≤◌, ◌⊎◌, ◌∷◌, List, [], arith, bool_eq, drop, false,
  if◌then◌else◌, inr, length, nat_eq, none, option_eq, refl, string_dec, string_eq, true, ℕ,
}
use native.Mathlib.Decide.{ℕ_discrete}
use whale_ai_sdk.Base.Text.{is_empty}
use whale_ai_sdk.Base.TreeMap.{get, insert, remove}
use whale_ai_sdk.Core.Session.{
  ThreadSession, accept_turn, check_history_with_input, check_run_admission, check_size,
  close_unanswered_tool_calls, limit_of, turns_reached,
}
use whale_ai_sdk.Core.Session.Bytes.{FitsIn}
use whale_ai_sdk.Core.Session.Admission.{accept_turn-bounded}
use whale_ai_sdk.Core.Session.Closed.{Answers, close_twice}
use whale_ai_sdk.Core.Session.Unanswered.{open_calls}
use whale_ai_sdk.Protocol.Limits.{count_writes, serialized_bytes}
use whale_ai_sdk.Core.Context.{build_recent, user_starts, validate_from, validate_items}
use whale_ai_sdk.Core.Context.Answered.{calls_of, results_of, validate_items-answered}
use whale_ai_sdk.Core.Context.Pruned.{build_recent_total}
use whale_ai_sdk.Protocol.Canonical.{
  CanonicalItem, CanonicalToolOutput, tool_call, tool_result, user_message,
}
use whale_ai_sdk.Protocol.Recovery.{defaults_validate}
use whale_ai_sdk.Protocol.Runs.{UsageMetrics}
use whale_ai_sdk.Store.Configuration.{
  Configuration, by_version, checked_configuration, into_value, object_or, parse_and_migrate,
  parse_v2, validate_run_defaults, validate_session_identity, value_depth,
}
use whale_ai_sdk.Store.Configuration.Depth.{Depth, value_depth-Deepest}
use whale_ai_sdk.Store.Configuration.Migration.{parse-migrated}
use whale_ai_sdk.Store.Error.{err, invalid, ok}
use whale_ai_sdk.Store.State.Summed.{checked_usage-total, fits, total}
use whale_ai_sdk.Store.State.Usage.{checked_usage, no_usage}
use whale_ai_sdk.Tests.Json.{Json, json_env}

-- A configuration of version 2.
abbrev second_version : Json
second_version = Json.entry "metadata" Json.nil (
    Json.entry "run_defaults" Json.nil
      (Json.entry "session" Json.nil (Json.entry "version" (Json.number 2) Json.nil)))

abbrev migrated : Configuration Json
migrated = record {
  session = [];
  run_defaults = Json.nil;
  metadata = [];
  interactions_enabled = false;
}

parses : parse_and_migrate second_version ≡ ok (migrated, true)
unfolding parse_and_migrate by_version parse_v2 object_or checked_configuration
    validate_run_defaults validate_session_identity defaults_validate get insert remove string_eq
    string_dec nat_eq ℕ_discrete option_eq json_env
parses = refl

parse-migrated_example : parse_and_migrate (into_value migrated) ≡ ok (migrated, false)
parse-migrated_example = parse-migrated second_version migrated true parses

nested : Json
nested = Json.entry "a" (Json.entry "b" Json.null Json.nil) Json.nil

value_depth-Deepest_example : Depth (value_depth 3 nested 1) nested 1
unfolding nested json_env
value_depth-Deepest_example = value_depth-Deepest 3 nested 1 (omega arith) (omega arith)

-- Two turns, the first with a batch of two calls that are answered out of order.
abbrev history : List (CanonicalItem Json)
history =
    user_message "1" []
    ∷ tool_call "2" "a" none "tool" none ""
    ∷ tool_call "3" "b" none "tool" none ""
    ∷ tool_result "4" "b" (CanonicalToolOutput.text "") false
    ∷ tool_result "5" "a" (CanonicalToolOutput.text "") false
    ∷ user_message "6" []
    ∷ []

is_valid : validate_items history ≡ none
unfolding validate_items validate_from get insert remove string_eq string_dec is_empty
is_valid = refl

build_recent_total_example :
    (n : ℕ) × (build_recent 1 false false none history
      ≡ inr (record { system_prompt = none; items = drop n history }))
    × (validate_items (drop n history) ≡ none)
    × (((length (user_starts 0 history) ≤ 1) × (n ≡ 0))
        ⊎ ((1 < length (user_starts 0 history)) × (length (user_starts 0 (drop n history)) ≡ 1)))
build_recent_total_example = build_recent_total 1 none history (omega arith) is_valid

validate_items-answered_example :
    (results_of "a" history ≡ calls_of "a" history) × (calls_of "a" history ≤ 1)
validate_items-answered_example = validate_items-answered history "a" is_valid

abbrev used : List UsageMetrics
used =
    record no_usage { input_tokens = 18446744073709551615 }
    ∷ record no_usage { input_tokens = 1 }
    ∷ []

checked_usage-total_example : checked_usage used ≡ (
    if fits (total no_usage used)
    then ok (total no_usage used)
    else err (invalid "Model usage exceeds u64 range"))
checked_usage-total_example = checked_usage-total used

-- A session whose turn has a call without a result.
abbrev session : ThreadSession Json
session = record {
  history =
      user_message "1" []
      ∷ tool_call "2" "a" none "tool" none ""
      ∷ tool_call "3" "b" none "tool" none ""
      ∷ tool_result "4" "b" (CanonicalToolOutput.text "") false
      ∷ [];
  limits = some (record {
    max_accepted_turns = some 3;
    max_history_bytes = some 1000;
    max_model_request_bytes = none;
  });
  accepted_turns = 2;
}

abbrev fresh : ℕ → String
fresh n = "new"

close_twice_example :
    ((close_unanswered_tool_calls fresh session 1).0 ≡ record session {
      history = session.history ++ (close_unanswered_tool_calls fresh session 1).1;
    })
    × Answers (drop 1 session.history) (close_unanswered_tool_calls fresh session 1).1
    × ((id : String)
        → open_calls id 0 (drop 1 (close_unanswered_tool_calls fresh session 1).0.history) ≡ 0)
    × (close_unanswered_tool_calls fresh (close_unanswered_tool_calls fresh session 1).0 1
        ≡ ((close_unanswered_tool_calls fresh session 1).0, []))
close_twice_example = close_twice fresh fresh session 1 (omega arith)

accepted : accept_turn session [] ≡ inr (record session { accepted_turns = 3 })
unfolding accept_turn check_run_admission turns_reached check_history_with_input check_size
    serialized_bytes count_writes json_env
accepted = refl

accept_turn-bounded_example :
    (3 ≡ 2 + 1)
    × (3 ≤ u64_max)
    × ((limit : ℕ) → limit_of session.limits (λ l. l.max_accepted_turns) ≡ some limit → 3 ≤ limit)
    × ((limit : ℕ)
        → limit_of session.limits (λ l. l.max_history_bytes) ≡ some limit
        → FitsIn limit (session.history ++ []))
    × (session.history ≡ session.history)
    × (session.limits ≡ session.limits)
accept_turn-bounded_example =
    accept_turn-bounded session [] (record session { accepted_turns = 3 }) accepted
