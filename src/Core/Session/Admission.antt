-- ===== src/Core/Session/Admission.antt =====
-- The bounds of the counter of accepted turns.
use whale_ai_sdk.Base.{◌+◌, ◌≡◌, ◌≤◌, ◌++◌, List, arith, inr, some, u64_max, ℕ}
use whale_ai_sdk.Core.Session.{
  ThreadSession, accept_turn, check_run_admission, limit_of, turns_reached,
}
use whale_ai_sdk.Core.Session.Bytes.{FitsIn, check_history_with_input-FitsIn}
use whale_ai_sdk.Protocol.Canonical.{CanonicalItem}
use whale_ai_sdk.Store.Env.{Env}

module _ {V : Type 0} ⦃env : Env V⦄ where
  admitted-FitsIn :
      (s : ThreadSession V) (input : List (CanonicalItem V)) (s' : ThreadSession V) (limit : ℕ)
      → accept_turn s input ≡ inr s'
      → limit_of s.limits (λ l. l.max_history_bytes) ≡ some limit
      → FitsIn limit (s'.history ++ input)
  unfolding accept_turn check_run_admission
  admitted-FitsIn s input s' limit h e =
      let same : s'.history ≡ s.history = ground arith in
      rw same (check_history_with_input-FitsIn s input limit (ground arith) e)

  -- An accepted turn raises the counter by one, within `u64` and within a limit on accepted turns,
  -- with the history and the limits
  -- unchanged. Under a limit on the bytes of the history, the history with the input is written without
  -- an error and in no more bytes.
  pub accept_turn-bounded :
      (s : ThreadSession V) (input : List (CanonicalItem V)) (s' : ThreadSession V)
      → accept_turn s input ≡ inr s'
      → (s'.accepted_turns ≡ s.accepted_turns + 1)
        × (s'.accepted_turns ≤ u64_max)
        × ((limit : ℕ)
            → limit_of s.limits (λ l. l.max_accepted_turns) ≡ some limit
            → s'.accepted_turns ≤ limit)
        × ((limit : ℕ)
            → limit_of s.limits (λ l. l.max_history_bytes) ≡ some limit
            → FitsIn limit (s'.history ++ input))
        × (s'.history ≡ s.history)
        × (s'.limits ≡ s.limits)
  unfolding accept_turn check_run_admission turns_reached
  accept_turn-bounded s input s' h = (
    ground arith,
    ground arith,
    λ limit e. ground arith,
    λ limit e. admitted-FitsIn s input s' limit h e,
    ground arith,
    ground arith,
  )
