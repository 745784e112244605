-- ===== src/Store/Runtime.antt =====
-- `StoreRuntime` of crates/whale-store/src/runtime.rs: the keys, and opening a store, creating,
-- inspecting, attaching to and forgetting a record. The clock is the argument `now`. Where the
-- source spawns a journal the result is its lease.
pub mod Keys
pub mod Attached
pub mod Forgotten
use whale_ai_sdk.Base.{
  ◌!=◌, ◌&&◌, ◌==◌, ◌||◌, ◌∷◌, ◌++◌, Bool, Eq, List, Option, String, [], bool_eq, checked_add,
  contains, false, if◌then◌else◌, inl, inr, is_none, is_some, list_eq, nat_eq, none, not, pair_eq,
  some, string_eq, true, ℕ,
}
use whale_ai_sdk.Base.Text.{is_blank}
use whale_ai_sdk.Base.TreeMap.{TreeMap}
use whale_ai_sdk.Protocol.Recovery.{RecoveryKey, RecoverySnapshot, key_validate}
use whale_ai_sdk.Store.Backend.Interface.{SessionStore}
use whale_ai_sdk.Store.Configuration.{Configuration, into_value}
use whale_ai_sdk.Store.Env.{Env}
use whale_ai_sdk.Store.Error.{
  Result, active, checked, conflict, err, forgotten, invalid, not_found, ok, ok_or, reject, ◌>>=◌,
  ◌>>◌,
}
use whale_ai_sdk.Store.Journal.{Lease}
use whale_ai_sdk.Store.Journal.Apply.{normalize_new_configuration, parse_versioned_configuration}
use whale_ai_sdk.Store.Retention.Lifecycle.{mark_detached, migrate_retention, retire, touch}
use whale_ai_sdk.Store.Runtime.Keys.{check_key, identity}
use whale_ai_sdk.Store.State.Finalize.{recover}
use whale_ai_sdk.Store.State.Queries
use whale_ai_sdk.Store.State.Validate.{validate}
use whale_ai_sdk.Store.Types.{SessionRecord}

module _ {V : Type 0} where
  -- The journal's worker is spawned with what the record says.
  abbrev pub lease_of : SessionRecord V → Lease
  lease_of r = record { id = r.recovery_id; epoch = r.epoch; owner = r.owner; thread = r.thread_id }

-- A state, and the result of a call that may have changed it.
abbrev pub after {ℓ κ} : {S : Type ℓ} {A : Type κ} → S × Result (Unit {0}) → A → S × Result A
after (s, ok done) a = (s, ok a)
after (s, err e) a = (s, err e)

module _ {V : Type 0} ⦃v : Eq V⦄ ⦃env : Env V⦄ where
  open env use {sha256_hex, is_uuid}

  unfoldable pub new_record : ℕ → RecoveryKey → V → String → String → SessionRecord V
  new_record now key configuration owner thread_id = record {
    schema_version = 2;
    created_at_ms = some now;
    updated_at_ms = some now;
    detached_since_ms = none;
    retired_at_ms = none;
    retirement_reason = none;
    recovery_id = key.recovery_id;
    secret_digest = sha256_hex key.secret;
    revision = 1;
    epoch = 1;
    owner = some owner;
    thread_id = some thread_id;
    historical_thread_ids = thread_id ∷ [];
    forgotten = false;
    configuration = configuration;
    history = [];
    runs = [];
    unknown_executions = [];
  }

  -- The checks of `create` and the record that it stores.
  unfoldable pub prepare_new : ℕ → RecoveryKey → V → String → String → Result (SessionRecord V)
  unfolding new_record
  prepare_new now key configuration owner thread_id = do
    checked (key_validate is_uuid key)
    identity owner thread_id configuration
    normal ← normalize_new_configuration configuration
    ok (new_record now key normal owner thread_id)

  -- The configuration that a caller attaches with against the stored one.
  unfoldable pub configuration_matches :
      SessionRecord V → V → Option (Configuration V × Bool) → Option (Configuration V × Bool) → Bool
  configuration_matches r configuration (some (stored, m)) (some (caller, n)) =
      stored.session == caller.session
      && stored.run_defaults == caller.run_defaults
      && stored.interactions_enabled == caller.interactions_enabled
  configuration_matches r configuration none none = r.configuration == configuration
  configuration_matches r configuration _ _ = false

  unfoldable pub migrated_configuration :
      SessionRecord V → Option (Configuration V × Bool) → SessionRecord V
  migrated_configuration r (some (c, true)) = record r { configuration = into_value c }
  migrated_configuration r _ = r

  -- The checks of `attach` on a record that the caller's key opened, and the record that it
  -- stores.
  unfoldable pub prepare_attach :
      ℕ → SessionRecord V → ℕ → V → String → String → Result (SessionRecord V)
  unfolding configuration_matches migrated_configuration
  prepare_attach now r expected configuration owner thread_id = do
    reject r.forgotten forgotten
    reject (is_some r.owner) active
    reject (r.revision != expected) conflict
    stored ← parse_versioned_configuration r.configuration
    caller ← parse_versioned_configuration configuration
    reject
        (not (configuration_matches r configuration stored caller)
          || contains r.historical_thread_ids thread_id)
        (invalid "Attachment configuration or fresh identity mismatch")
    let touched = touch (migrated_configuration r stored) now
    epoch ← ok_or (checked_add r.epoch 1) conflict
    revision ← ok_or (checked_add r.revision 1) conflict
    ok (record touched {
      detached_since_ms = none;
      owner = some owner;
      thread_id = some thread_id;
      historical_thread_ids = r.historical_thread_ids ++ thread_id ∷ [];
      epoch = epoch;
      revision = revision;
    })

  -- The tombstone that `forget` stores; `none` for a record that is one already.
  unfoldable pub prepare_forget : ℕ → SessionRecord V → ℕ → Result (Option (SessionRecord V))
  prepare_forget now r expected = if r.forgotten then ok none else tombstone
    where
      tombstone : Result (Option (SessionRecord V))
      tombstone = do
        reject (is_some r.owner) active
        reject (r.revision != expected) conflict
        revision ← ok_or (checked_add r.revision 1) conflict
        ok (some (record (retire r now "explicit_forget") { revision = revision }))

  -- What `open` stores in place of a record; `none` where nothing changes.
  unfoldable pub prepare_open : ℕ → SessionRecord V → Result (Option (SessionRecord V))
  unfolding migrated_configuration
  prepare_open now r = do
    validate r
    parsed ← if r.forgotten then ok none else parse_versioned_configuration r.configuration
    let (kept, retention_migrated) = migrate_retention (migrated_configuration r parsed) now
    (recovered, changed) ← recover kept
    let marked = if is_some r.owner then mark_detached recovered now else recovered
    if is_migrated parsed || retention_migrated || changed
        then (do
          next ← ok_or (checked_add r.revision 1) conflict
          ok (some (record marked { revision = next })))
        else ok none
    where
      is_migrated : Option (Configuration V × Bool) → Bool
      is_migrated (some (c, migrated)) = migrated
      is_migrated none = false

module _ {V S : Type 0} ⦃v : Eq V⦄ ⦃env : Env V⦄ ⦃backend : SessionStore V S⦄ where
  open env use {is_uuid}

  unfoldable pub create : ℕ → S → RecoveryKey → V → String → String → S × Result Lease
  unfolding prepare_new
  create now s key configuration owner thread_id =
      elim (prepare_new now key configuration owner thread_id) [
        | err e ↦ (s, err e)
        | ok r ↦ after (backend.create s r) (lease_of r)
      ]

  unfoldable pub authenticated : S → RecoveryKey → Result (SessionRecord V)
  authenticated s key = do
    checked (key_validate is_uuid key)
    found ← backend.load s key.recovery_id
    r ← ok_or found not_found
    check_key r key
    validate r
    ok r

  unfoldable pub inspect : S → RecoveryKey → Result (RecoverySnapshot V)
  unfolding authenticated
  inspect s key = do r ← authenticated s key; reject r.forgotten forgotten; ok (Queries.snapshot r)

  attachable : ℕ → S → RecoveryKey → ℕ → V → String → String → Result (SessionRecord V)
  unfolding authenticated prepare_attach
  attachable now s key expected configuration owner thread_id = do
    identity owner thread_id configuration
    r ← authenticated s key
    prepare_attach now r expected configuration owner thread_id

  unfoldable pub attach : ℕ → S → RecoveryKey → ℕ → V → String → String → S × Result Lease
  unfolding attachable
  attach now s key expected configuration owner thread_id =
      elim (attachable now s key expected configuration owner thread_id) [
        | err e ↦ (s, err e)
        | ok r ↦ after (backend.compare_exchange s key.recovery_id expected r) (lease_of r)
      ]

  unfoldable pub open_record : ℕ → S → SessionRecord V → S × Result (Unit {0})
  unfolding prepare_open
  open_record now s r = elim (prepare_open now r) [
    | err e ↦ (s, err e)
    | ok none ↦ (s, ok tt)
    | ok (some r') ↦ backend.compare_exchange s r'.recovery_id r.revision r'
  ]

  -- The loop of `open` over the listed records: the first error ends it.
  unfoldable pub open_all : ℕ → S → List (SessionRecord V) → S × Result (Unit {0})
  unfolding open_record
  open_all now s [] = (s, ok tt)
  open_all now s (r ∷ rest) =
      let (s', result) = open_record now s r in
      let others = open_all now s' rest in elim result [ ok done ↦ others | err e ↦ (s', err e) ]

-- Nothing in the types of these two names `V`.
module _ (V : Type 0) {S : Type 0} ⦃v : Eq V⦄ ⦃env : Env V⦄ ⦃backend : SessionStore V S⦄ where
  -- Whether the record was forgotten by this call.
  unfoldable pub forget : ℕ → S → RecoveryKey → ℕ → S × Result Bool
  unfolding authenticated prepare_forget
  forget now s key expected =
      elim (authenticated {V = V} s key >>= λ r. prepare_forget now r expected) [
        | err e ↦ (s, err e)
        | ok none ↦ (s, ok false)
        | ok (some r) ↦ after (backend.compare_exchange s key.recovery_id expected r) true
      ]

  unfoldable pub open_store : ℕ → S → S × Result (Unit {0})
  unfolding open_all
  open_store now s = elim (backend.list s) [
    | err e ↦ (s, err e)
    | ok records ↦ open_all now s records
  ]
