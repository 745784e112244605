-- ===== src/Store/Runtime/Attached.antt =====
-- The contract of `attach`.
use whale_ai_sdk.Base.{
  ◌+◌, ◌++◌, ◌∷◌, ◌≡◌, ◌≤◌, Eq, String, [], arith, contains, false, nat_eq, none, option_eq, some,
  string_eq, true, ℕ,
}
use whale_ai_sdk.Store.Env.{Env}
use whale_ai_sdk.Store.Error.{ok}
use whale_ai_sdk.Store.Journal.{Lease, is_stale}
use whale_ai_sdk.Store.Retention.Lifecycle.{touch}
use whale_ai_sdk.Store.Runtime.{lease_of, migrated_configuration, prepare_attach}
use whale_ai_sdk.Store.Types.{SessionRecord}

module _ {V : Type 0} ⦃v : Eq V⦄ ⦃env : Env V⦄ where
  -- What an attachment was allowed on, and what it leaves.
  pub record Attached (r : SessionRecord V) (expected : ℕ) (owner thread_id : String)
      (r' : SessionRecord V) : Type 0 where
    pub detached : r.owner ≡ none
    pub present : r.forgotten ≡ false
    pub current : r.revision ≡ expected
    pub fresh : contains r.historical_thread_ids thread_id ≡ false
    pub owned : r'.owner ≡ some owner
    pub thread : r'.thread_id ≡ some thread_id
    pub epoch : r'.epoch ≡ r.epoch + 1
    pub revision : r'.revision ≡ r.revision + 1
    pub identities : r'.historical_thread_ids ≡ r.historical_thread_ids ++ thread_id ∷ []
    pub history : r'.history ≡ r.history
    pub runs : r'.runs ≡ r.runs
    pub fences : (lease : Lease) → lease.epoch ≤ r.epoch → is_stale lease r' ≡ true
    pub holds : is_stale (lease_of r') r' ≡ false

  -- `attach` succeeds only on a record that is present, has no owner and stands at the expected
  -- revision, and with a thread identity that the session never used. The record that it stores
  -- has the new owner and thread, the next epoch and the next revision, and its history and runs.
  -- Every lease of an earlier epoch is stale on it, and the lease of the new worker is not.
  pub prepare_attach-Attached :
      (now : ℕ) (r : SessionRecord V) (expected : ℕ) (configuration : V) (owner thread_id : String)
      (r' : SessionRecord V)
      → prepare_attach now r expected configuration owner thread_id ≡ ok r'
      → Attached r expected owner thread_id r'
  unfolding prepare_attach migrated_configuration touch is_stale
  prepare_attach-Attached now r expected configuration owner thread_id r' h = record {
    detached = ground arith;
    present = ground arith;
    current = ground arith;
    fresh = ground arith;
    owned = ground arith;
    thread = ground arith;
    epoch = ground arith;
    revision = ground arith;
    identities = ground arith;
    history = ground arith;
    runs = ground arith;
    fences = λ lease older. ground arith;
    holds = ground arith;
  }
