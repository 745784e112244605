-- ===== src/Protocol/Limits.antt =====
-- crates/whale-protocol/src/retention.rs: admission limits, retention policies, and the count of
-- serialized bytes. A `Vec<u8>` that `serde_json::to_writer` hands to the writer is its length.
use whale_ai_sdk.Base.{
  ℕ, ◌==◌, Bool, bool_eq, checked_add, if◌then◌else◌, is_some, List, [], ◌∷◌, none, Option, some,
  option_eq, nat_eq, ◌||◌, String, ◌⊎◌, inl, inr,
}

pub record SessionLimits : Type 0 where
  pub max_accepted_turns : Option ℕ
  pub max_history_bytes : Option ℕ
  pub max_model_request_bytes : Option ℕ

pub record RunRetentionPolicy : Type 0 where
  pub terminal_ttl_ms : Option ℕ
  pub max_terminal_runs_per_session : Option ℕ

pub record StoreRetentionPolicy : Type 0 where
  pub detached_ttl_ms : Option ℕ
  pub max_retained_sessions : Option ℕ
  pub max_retained_payload_bytes : Option ℕ

pub record RetentionPolicy : Type 0 where
  pub sweep_interval_ms : ℕ
  pub runs : RunRetentionPolicy
  pub store : StoreRetentionPolicy

-- `none` is `Ok(())`, `some` the message of the first option that is zero.
abbrev must_be_positive : Option ℕ → String → Option String → Option String
must_be_positive field message rest = if field == some 0 then some message else rest

unfoldable pub limits_validate : SessionLimits → Option String
limits_validate l = must_be_positive l.max_accepted_turns "max_accepted_turns must be positive" (
    must_be_positive l.max_history_bytes "max_history_bytes must be positive"
      (must_be_positive l.max_model_request_bytes "max_model_request_bytes must be positive" none))

unfoldable pub runs_validate : RunRetentionPolicy → Option String
runs_validate p = must_be_positive p.terminal_ttl_ms "terminal_ttl_ms must be positive" (
    must_be_positive p.max_terminal_runs_per_session
      "max_terminal_runs_per_session must be positive" none)

unfoldable pub store_validate : StoreRetentionPolicy → Option String
store_validate p = must_be_positive p.detached_ttl_ms "detached_ttl_ms must be positive" (
    must_be_positive p.max_retained_sessions "max_retained_sessions must be positive" (
      must_be_positive p.max_retained_payload_bytes "max_retained_payload_bytes must be positive"
        none))

unfoldable pub store_is_enabled : StoreRetentionPolicy → Bool
store_is_enabled p =
    is_some p.detached_ttl_ms
    || (is_some p.max_retained_sessions || is_some p.max_retained_payload_bytes)

unfoldable pub runs_is_enabled : RunRetentionPolicy → Bool
runs_is_enabled p = is_some p.terminal_ttl_ms || is_some p.max_terminal_runs_per_session

unfoldable pub policy_is_enabled : RetentionPolicy → Bool
unfolding runs_is_enabled store_is_enabled
policy_is_enabled p = runs_is_enabled p.runs || store_is_enabled p.store

unfoldable pub policy_validate : RetentionPolicy → Option String
unfolding runs_validate store_validate
policy_validate p =
    if p.sweep_interval_ms == 0
    then some "sweep_interval_ms must be positive"
    else elim (runs_validate p.runs) [ some message ↦ some message | none ↦ store_validate p.store ]

-- The writer `Count`: one `checked_add` for each write; `none` is the overflow error.
unfoldable pub count_writes : ℕ → List ℕ → Option ℕ
count_writes total [] = some total
count_writes total (n ∷ writes) = elim (checked_add total n) [
  | none ↦ none
  | some sum ↦ count_writes sum writes
]

-- `serialized_bytes`, from the writes that the serializer makes (`inl` is its error).
unfoldable pub serialized_bytes : String ⊎ List ℕ → String ⊎ ℕ
unfolding count_writes
serialized_bytes (inl error) = inl error
serialized_bytes (inr writes) = elim (count_writes 0 writes) [
  | none ↦ inl "Serialized byte count overflow"
  | some total ↦ inr total
]
