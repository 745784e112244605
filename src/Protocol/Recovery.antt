-- ===== src/Protocol/Recovery.antt =====
-- crates/whale-protocol/src/recovery.rs: recovery keys and the records that a recovered session
-- shows. `V` is `serde_json::Value`.
use whale_ai_sdk.Base.{
  Bool, List, Option, String, ℕ, ◌==◌, ◌!=◌, ◌||◌, nat_eq, option_eq, if◌then◌else◌, some, none,
  not,
}
use whale_ai_sdk.Base.Text.{byte_len, all_hexdigits}
use whale_ai_sdk.Protocol.Canonical.{CanonicalItem}
use whale_ai_sdk.Protocol.Runs.{RunSnapshot, UsageMetrics}

pub record RecoveryKey : Type 0 where
  pub recovery_id : String
  pub secret : String

pub record SessionRunDefaults : Type 0 where
  pub max_steps : ℕ
  pub timeout_ms : Option ℕ

-- `none` is `Ok(())`.
unfoldable pub defaults_validate : SessionRunDefaults → Option String
defaults_validate d =
    if d.max_steps == 0 || d.timeout_ms == some 0
    then some "Run defaults must be positive"
    else none

-- `RecoveryKey::validate`, with `Uuid::parse_str(..).is_ok()` as an argument.
unfoldable pub key_validate : (String → Bool) → RecoveryKey → Option String
key_validate is_uuid key =
    if not (is_uuid key.recovery_id) || byte_len key.recovery_id != 36
    then some "Recovery ID must be a UUID"
    else if byte_len key.secret != 64 || not (all_hexdigits key.secret)
    then some "Recovery secret must contain 64 hexadecimal characters"
    else none

pub record ModelInputRecord (V : Type 0) : Type 0 where
  pub step_id : String
  pub step_index : ℕ
  pub history_revision : ℕ
  pub request : V
  pub completed : Bool
  pub usage : Option UsageMetrics

pub record RecoveredRun (V : Type 0) : Type 0 where
  pub snapshot : RunSnapshot V
  pub model_inputs : List (ModelInputRecord V)
  pub effective_options : V

pub record UnknownExecution (V : Type 0) : Type 0 where
  pub execution_id : String
  pub turn_id : String
  pub call_id : String
  pub tool_name : String
  pub original_arguments : Option V
  pub arguments : Option V
  pub reason : String
  pub acknowledged : Bool

pub record RecoverySnapshot (V : Type 0) : Type 0 where
  pub recovery_id : String
  pub revision : ℕ
  pub epoch : ℕ
  pub attached : Bool
  pub configuration : V
  pub history : List (CanonicalItem V)
  pub runs : List (RecoveredRun V)
  pub unknown_executions : List (UnknownExecution V)
