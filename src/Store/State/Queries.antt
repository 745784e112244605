-- ===== src/Store/State/Queries.antt =====
-- The read-only methods of `SessionRecord`, and the limits in its configuration.
use whale_ai_sdk.Base.{
  Bool, List, Option, String, any, false, find, inl, inr, is_some, map, none, not, some, string_eq,
  true, ℕ, ◌++◌, ◌==◌, ◌⊎◌,
}
use whale_ai_sdk.Base.TreeMap.{values}
use whale_ai_sdk.Protocol.Canonical.{CanonicalItem}
use whale_ai_sdk.Protocol.Limits.{SessionLimits, limits_validate, serialized_bytes}
use whale_ai_sdk.Protocol.Recovery.{RecoveredRun, RecoverySnapshot}
use whale_ai_sdk.Protocol.Runs.{is_terminal}
use whale_ai_sdk.Store.Env.{Env}
use whale_ai_sdk.Store.Error.{◌>>=◌, ◌>>◌, checked, err, invalid, ok, Result}
use whale_ai_sdk.Store.Types.{SessionRecord, StoredCall, StoredRun}

module _ {V : Type 0} where
  -- A run that has not ended.
  abbrev pub is_live : StoredRun V → Bool
  is_live run = not (is_terminal run.snapshot.status)

  unfoldable pub active : SessionRecord V → Bool
  active r = any is_live (values r.runs)

  unfoldable pub unresolved : SessionRecord V → Bool
  unresolved r = any (λ u. not u.acknowledged) r.unknown_executions

  recovered : StoredRun V → RecoveredRun V
  recovered run = record {
    snapshot = run.snapshot;
    model_inputs = run.model_inputs;
    effective_options = run.effective_options;
  }

  unfoldable pub snapshot : SessionRecord V → RecoverySnapshot V
  unfolding recovered
  snapshot r = record {
    recovery_id = r.recovery_id;
    revision = r.revision;
    epoch = r.epoch;
    attached = is_some r.owner;
    configuration = r.configuration;
    history = r.history;
    runs = map recovered (values r.runs);
    unknown_executions = r.unknown_executions;
  }

  abbrev pub find_call : String → List (StoredCall V) → Option (StoredCall V)
  find_call id = find (λ c. c.call_id == id)

-- `map_err(|e| StoreError::Invalid(e.to_string()))`.
abbrev pub or_invalid {ℓ} : {A : Type ℓ} → String ⊎ A → Result A
or_invalid (inl message) = err (invalid message)
or_invalid (inr a) = ok a

module _ {V : Type 0} ⦃env : Env V⦄ where
  open env use {pointer, is_null, session_limits, write_items}

  abbrev non_null : Option V → Option V
  non_null none = none
  non_null (some v) = elim (is_null v) [ true ↦ none | false ↦ some v ]

  parse_limits : Option V → Result (Option SessionLimits)
  parse_limits none = ok none
  parse_limits (some v) = do
    limits ← or_invalid (session_limits v)
    checked (limits_validate limits)
    ok (some limits)

  -- The limits that the configuration states, parsed and validated; `begin` writes a prefix before
  -- the parser's text, which is left out.
  unfoldable pub configured_limits : V → Result (Option SessionLimits)
  unfolding parse_limits
  configured_limits configuration =
      parse_limits (non_null (pointer configuration "/session/limits"))

  -- `history_bytes` of crates/whale-protocol/src/retention.rs.
  unfoldable pub history_bytes : List (CanonicalItem V) → List (CanonicalItem V) → Result ℕ
  history_bytes history input = or_invalid (serialized_bytes (write_items (history ++ input)))
