-- ===== src/Store/Retention/Sweep.antt =====
-- The loop of `sweep_owned` (crates/whale-store/src/retention.rs) over the collected rows, and
-- `retire_detached` of the trait (crates/whale-store/src/backend.rs).
use whale_ai_sdk.Base.{
  ◌&&◌, ◌-◌, ◌||◌, ◌∷◌, Bool, Eq, List, Option, String, [], false, if◌then◌else◌, is_some_and, leb,
  ltb, none, not, some, suc, true, ℕ,
}
use whale_ai_sdk.Protocol.Limits.{StoreRetentionPolicy}
use whale_ai_sdk.Store.Backend.Interface.{SessionStore}
use whale_ai_sdk.Store.Env.{Env}
use whale_ai_sdk.Store.Error.{
  Result, StoreError, active, conflict, err, forgotten, not_found, ok, ok_or, unknown_executions,
  ◌>>=◌,
}
use whale_ai_sdk.Store.Retention.Lifecycle.{RetentionMetadata, retirement_replacement}
use whale_ai_sdk.Store.Runtime.{after}
use whale_ai_sdk.Store.Types.{SessionRecord}

-- The errors after which the sweep goes on with the next row.
unfoldable pub is_tolerated : StoreError → Bool
is_tolerated conflict = true
is_tolerated active = true
is_tolerated unknown_executions = true
is_tolerated not_found = true
is_tolerated forgotten = true
is_tolerated _ = false

-- `since.and_then(|since| now.checked_sub(since)).is_some_and(|age| age >= ttl)`.
unfoldable pub has_aged : ℕ → RetentionMetadata → ℕ → Bool
has_aged now row ttl =
    is_some_and row.detached_since_ms (λ since. leb since now && leb ttl (now - since))

unfoldable pub has_expired : StoreRetentionPolicy → ℕ → RetentionMetadata → Bool
unfolding has_aged
has_expired policy now row = is_some_and policy.detached_ttl_ms (has_aged now row)

unfoldable pub is_protected : RetentionMetadata → Bool
is_protected row = row.forgotten || row.protected_active || row.protected_unknown

-- The store, the sessions and bytes that are left, and the number of retired records.
pub record Sweeping (S : Type 0) : Type 0 where
  pub store : S
  pub sessions : ℕ
  pub bytes : ℕ
  pub retired : ℕ

unfoldable pub has_excess : {S : Type 0} → StoreRetentionPolicy → Sweeping S → Bool
has_excess policy w =
    is_some_and policy.max_retained_sessions (λ limit. ltb limit w.sessions)
    || is_some_and policy.max_retained_payload_bytes (λ limit. ltb limit w.bytes)

abbrev pub reason_of : Bool → String
reason_of ttl = if ttl then "detached_ttl" else "retention_budget"

module _ {V S : Type 0} ⦃v : Eq V⦄ ⦃env : Env V⦄ ⦃backend : SessionStore V S⦄ where
  unfoldable pub tombstone : S → String → ℕ → ℕ → String → Result (Option (SessionRecord V))
  tombstone s id expected now reason = do
    found ← backend.load s id
    old ← ok_or found not_found
    retirement_replacement old expected now reason

module _ (V : Type 0) {S : Type 0} ⦃v : Eq V⦄ ⦃env : Env V⦄ ⦃backend : SessionStore V S⦄ where
  unfoldable pub retire_detached : S → String → ℕ → ℕ → String → S × Result Bool
  unfolding tombstone
  retire_detached s id expected now reason = elim (tombstone {V = V} s id expected now reason) [
    | err e ↦ (s, err e)
    | ok none ↦ (s, ok false)
    | ok (some new) ↦ after (backend.compare_exchange s id expected new) true
  ]

  -- The counters after the attempt to retire a row.
  unfoldable pub counted :
      RetentionMetadata → Sweeping S → S × Result Bool → Sweeping S × Result (Unit {0})
  unfolding is_tolerated
  counted row w (s, ok true) = (
    record {
      store = s;
      sessions = w.sessions - 1;
      bytes = w.bytes - row.payload_bytes;
      retired = suc w.retired;
    },
    ok tt,
  )
  counted row w (s, ok false) = (record w { store = s }, ok tt)
  counted row w (s, err e) = (record w { store = s }, (if is_tolerated e then ok tt else err e))

  unfoldable pub sweep_row :
      StoreRetentionPolicy → ℕ → RetentionMetadata → Sweeping S → Sweeping S × Result (Unit {0})
  unfolding retire_detached counted has_expired has_excess is_protected
  sweep_row policy now row w =
      if is_protected row || not (has_expired policy now row || has_excess policy w)
      then (w, ok tt)
      else counted row w (
          retire_detached w.store row.recovery_id row.revision now
            (reason_of (has_expired policy now row)))

  unfoldable pub sweep_rows :
      StoreRetentionPolicy
      → ℕ
      → List RetentionMetadata
      → Sweeping S
      → Sweeping S × Result (Unit {0})
  unfolding sweep_row
  sweep_rows policy now [] w = (w, ok tt)
  sweep_rows policy now (row ∷ rest) w =
      let (w', result) = sweep_row policy now row w in
      let others = sweep_rows policy now rest w' in
      elim result [ ok done ↦ others | err e ↦ (w', err e) ]
