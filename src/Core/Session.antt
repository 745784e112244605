-- ===== src/Core/Session.antt =====
-- The limits and the history of `ThreadSession` (crates/whale-core/src/session.rs). Its adapters,
-- tools, options, policy and journal are handles that these operations do not read. `fresh` gives
-- the identities of new items in turn.
pub mod Unanswered
pub mod Bytes
pub mod Closed
pub mod Admission
use whale_ai_sdk.Base.{
  ◌++◌, ◌==◌, ◌∷◌, ◌⊎◌, Bool, List, Option, String, [], checked_add, drop, false, if◌then◌else◌,
  inl, inr, leb, ltb, none, some, string_eq, suc, true, ℕ,
}
use whale_ai_sdk.Protocol.Canonical.{
  CanonicalItem, CanonicalToolOutput, assistant_message, reasoning, tool_call, tool_result,
  user_message,
}
use whale_ai_sdk.Protocol.Limits.{SessionLimits, limits_validate, serialized_bytes}
use whale_ai_sdk.Store.Env.{Env}

-- An error's constructor has the values that its message shows.
pub data CoreError : Type 0 where
  invalid_configuration : String → CoreError
  max_accepted_turns_reached : ℕ → CoreError
  accepted_turns_overflow : CoreError
  max_history_bytes_exceeded : ℕ → CoreError
  max_model_request_bytes_exceeded : ℕ → CoreError
  serialization : String → CoreError

pub record ThreadSession (V : Type 0) : Type 0 where
  pub history : List (CanonicalItem V)
  pub limits : Option SessionLimits
  pub accepted_turns : ℕ

-- `remove` of the first position that holds `id`.
unfoldable pub remove_first : String → List String → List String
remove_first id [] = []
remove_first id (x ∷ xs) = let rest = remove_first id xs in if x == id then xs else x ∷ rest

abbrev pub closing_message : String
closing_message =
    "No tool result was recorded before the run ended. The tool may have run or may still be running; execution and external side effects are unknown. The call was not retried."

-- The checks of a size against a limit; `none` is `Ok(())`.
unfoldable pub check_size : (ℕ → CoreError) → Option ℕ → String ⊎ ℕ → Option CoreError
check_size exceeded none size = none
check_size exceeded (some limit) (inl error) = some (serialization error)
check_size exceeded (some limit) (inr size) = if ltb limit size then some (exceeded limit) else none

abbrev pub limit_of : Option SessionLimits → (SessionLimits → Option ℕ) → Option ℕ
limit_of none field = none
limit_of (some limits) field = field limits

module _ {V : Type 0} where
  -- The calls of the items that no later result answers.
  unfoldable pub unanswered : List String → List (CanonicalItem V) → List String
  unanswered pending [] = pending
  unanswered pending (tool_call id call_id namespace name arguments raw ∷ items) =
      unanswered (pending ++ call_id ∷ []) items
  unanswered pending (tool_result id call_id output is_error ∷ items) =
      unanswered (remove_first call_id pending) items
  unanswered pending (item ∷ items) = unanswered pending items

  unfoldable pub closings : (ℕ → String) → ℕ → List String → List (CanonicalItem V)
  closings fresh n [] = []
  closings fresh n (id ∷ ids) =
      tool_result (fresh n) id (CanonicalToolOutput.text closing_message) true
      ∷ closings fresh (suc n) ids

  -- The session and the results that were added. A start beyond the history would be a panic.
  unfoldable pub close_unanswered_tool_calls :
      (ℕ → String) → ThreadSession V → ℕ → ThreadSession V × List (CanonicalItem V)
  unfolding unanswered closings
  close_unanswered_tool_calls fresh s history_start =
      let results = closings fresh 0 (unanswered [] (drop history_start s.history)) in
      (record s { history = s.history ++ results }, results)

  unfoldable pub set_limits : ThreadSession V → Option SessionLimits → CoreError ⊎ ThreadSession V
  set_limits s none = inr (record s { limits = none })
  set_limits s (some limits) = elim (limits_validate limits) [
    | some message ↦ inl (invalid_configuration message)
    | none ↦ inr (record s { limits = some limits })
  ]

  unfoldable pub turns_reached : ThreadSession V → Option CoreError
  turns_reached s = elim (limit_of s.limits (λ l. l.max_accepted_turns)) [
    | none ↦ none
    | some limit ↦
        if leb limit s.accepted_turns then some (max_accepted_turns_reached limit) else none
  ]

module _ {V : Type 0} ⦃env : Env V⦄ where
  open env use {write_items, write_value}

  unfoldable pub check_history_with_input :
      ThreadSession V → List (CanonicalItem V) → Option CoreError
  unfolding check_size
  check_history_with_input s input =
      check_size max_history_bytes_exceeded (limit_of s.limits (λ l. l.max_history_bytes))
        (serialized_bytes (write_items (s.history ++ input)))

  -- `request` is the model request as a value.
  unfoldable pub check_model_request_limit : ThreadSession V → V → Option CoreError
  unfolding check_size
  check_model_request_limit s request =
      check_size max_model_request_bytes_exceeded
        (limit_of s.limits (λ l. l.max_model_request_bytes))
        (serialized_bytes (write_value request))

  unfoldable pub check_run_admission : ThreadSession V → List (CanonicalItem V) → Option CoreError
  unfolding turns_reached check_history_with_input
  check_run_admission s input = elim (turns_reached s) [
    | some error ↦ some error
    | none ↦ check_history_with_input s input
  ]

  unfoldable pub accept_turn :
      ThreadSession V → List (CanonicalItem V) → CoreError ⊎ ThreadSession V
  unfolding check_run_admission
  accept_turn s input = elim (check_run_admission s input) [
    | some error ↦ inl error
    | none ↦ elim (checked_add s.accepted_turns 1) [
      | none ↦ inl accepted_turns_overflow
      | some count ↦ inr (record s { accepted_turns = count })
    ]
  ]
