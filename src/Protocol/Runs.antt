-- ===== src/Protocol/Runs.antt =====
-- crates/whale-protocol/src/{events,contexts,rpc,runs}.rs: usage counters, execution records and
-- the snapshot of a run. `V` is `serde_json::Value`.
use whale_ai_sdk.Base.{
  ◌&&◌, ◌==◌, ◌||◌, leb, ltb, Bool, bool_eq, Eq, false, List, list_eq, nat_eq, none, not, option_eq,
  Option, some, String, string_eq, true, ℕ,
}
use whale_ai_sdk.Protocol.Canonical.{CanonicalItem, item_eq}

-- Every counter is a `u64`.
pub record UsageMetrics : Type 0 where
  pub input_tokens : ℕ
  pub output_tokens : ℕ
  pub reasoning_tokens : ℕ
  pub cache_creation_input_tokens : ℕ
  pub cache_read_input_tokens : ℕ

pub record ToolExecutionRecord (V : Type 0) : Type 0 where
  pub call_id : String
  pub original_arguments : V
  pub arguments : V

pub data TurnStatus : Type 0 where
  completed failed interrupted requires_approval : TurnStatus

pub data RunStatus : Type 0 where
  running waiting_approval cancelling completed failed cancelled : RunStatus

unfoldable pub is_terminal : RunStatus → Bool
is_terminal RunStatus.completed = true
is_terminal RunStatus.failed = true
is_terminal RunStatus.cancelled = true
is_terminal _ = false

pub record RunFailure : Type 0 where
  pub code : String
  pub message : String

pub record PendingApproval (V : Type 0) : Type 0 where
  pub request_id : String
  pub tool_call : CanonicalItem V
  pub reason : Option String

pub record RunTurnResult (V : Type 0) : Type 0 where
  pub turn_id : String
  pub thread_id : String
  pub status : TurnStatus
  pub items : List (CanonicalItem V)
  pub usage : UsageMetrics

pub record RunSnapshot (V : Type 0) : Type 0 where
  pub tool_executions : List (ToolExecutionRecord V)
  pub thread_id : String
  pub turn_id : String
  pub status : RunStatus
  pub items : List (CanonicalItem V)
  pub usage : UsageMetrics
  pub pending_approvals : List (PendingApproval V)
  pub last_seq : ℕ
  pub result : Option (RunTurnResult V)
  pub error : Option RunFailure

-- `temperature` is the bit pattern of an `f32`.
pub record RunTurnOptions : Type 0 where
  pub model : Option String
  pub temperature : Option ℕ
  pub max_tokens : Option ℕ
  pub reasoning_effort : Option String
  pub thinking_budget : Option ℕ
  pub prompt_caching : Option Bool

pub record StartTurnParams (V : Type 0) : Type 0 where
  pub thread_id : String
  pub turn_id : String
  pub input_items : List (CanonicalItem V)
  pub options : Option RunTurnOptions
  pub max_steps : ℕ
  pub timeout_ms : Option ℕ

-- `==` on `f32`: a NaN equals nothing, and the two zeros are equal.
unfoldable pub is_nan : ℕ → Bool
is_nan bits = (ltb 0x7f800000 bits && leb bits 0x7fffffff) || ltb 0xff800000 bits

is_zero : ℕ → Bool
is_zero bits = bits == 0 || bits == 0x80000000

unfoldable pub f32_eq : ℕ → ℕ → Bool
unfolding is_zero is_nan
f32_eq a b = not (is_nan a) && (not (is_nan b) && (a == b || (is_zero a && is_zero b)))

unfoldable pub temperature_eq : Option ℕ → Option ℕ → Bool
unfolding f32_eq
temperature_eq none none = true
temperature_eq (some a) (some b) = f32_eq a b
temperature_eq _ _ = false

-- The derived `PartialEq`, field by field.
unfoldable pub options_eq : Option RunTurnOptions → Option RunTurnOptions → Bool
unfolding temperature_eq
options_eq none none = true
options_eq none (some b) = false
options_eq (some a) none = false
options_eq (some a) (some b) =
    a.model == b.model
    && (temperature_eq a.temperature b.temperature
        && (a.max_tokens == b.max_tokens
            && (a.reasoning_effort == b.reasoning_effort
                && (a.thinking_budget == b.thinking_budget
                    && a.prompt_caching == b.prompt_caching))))

usage_dec : Discrete UsageMetrics
usage_dec = hlevel (Eq.dec nat_eq)

instance unfoldable pub usage_eq : Eq UsageMetrics
unfolding usage_dec
usage_eq = record { dec = usage_dec }

turn_status_dec : Discrete TurnStatus
turn_status_dec = hlevel

instance unfoldable pub turn_status_eq : Eq TurnStatus
unfolding turn_status_dec
turn_status_eq = record { dec = turn_status_dec }

run_status_dec : Discrete RunStatus
run_status_dec = hlevel

instance unfoldable pub run_status_eq : Eq RunStatus
unfolding run_status_dec
run_status_eq = record { dec = run_status_dec }

failure_dec : Discrete RunFailure
failure_dec = hlevel (Eq.dec string_eq)

module _ {V : Type 0} ⦃v : Eq V⦄ where
  unfoldable pub params_eq : StartTurnParams V → StartTurnParams V → Bool
  unfolding options_eq
  params_eq p q =
      p.thread_id == q.thread_id
      && (p.turn_id == q.turn_id
          && (p.input_items == q.input_items
              && (options_eq p.options q.options
                  && (p.max_steps == q.max_steps && p.timeout_ms == q.timeout_ms))))

  execution_dec : Discrete (ToolExecutionRecord V)
  execution_dec = hlevel (Eq.dec string_eq, v.dec)

  approval_dec : Discrete (PendingApproval V)
  approval_dec = hlevel (Eq.dec string_eq, Eq.dec (item_eq {V = V}))

  result_dec : Discrete (RunTurnResult V)
  result_dec = hlevel (Eq.dec string_eq, Eq.dec (item_eq {V = V}), usage_dec)

  snapshot_dec : Discrete (RunSnapshot V)
  snapshot_dec = hlevel (
    Eq.dec string_eq,
    Eq.dec nat_eq,
    Eq.dec (item_eq {V = V}),
    usage_dec,
    execution_dec,
    approval_dec,
    failure_dec,
    result_dec,
  )

  instance unfoldable pub execution_eq : Eq (ToolExecutionRecord V)
  unfolding execution_dec
  execution_eq = record { dec = execution_dec }

  instance unfoldable pub snapshot_eq : Eq (RunSnapshot V)
  unfolding snapshot_dec usage_dec execution_dec approval_dec failure_dec result_dec
  snapshot_eq = record { dec = snapshot_dec }
