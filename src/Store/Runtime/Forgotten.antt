-- ===== src/Store/Runtime/Forgotten.antt =====
-- The contract of `forget`.
use whale_ai_sdk.Base.{◌+◌, ◌≡◌, Eq, [], arith, false, nat_eq, none, some, true, ℕ, is_some}
use whale_ai_sdk.Store.Env.{Env}
use whale_ai_sdk.Store.Error.{ok}
use whale_ai_sdk.Store.Retention.Lifecycle.{retire, touch}
use whale_ai_sdk.Store.Runtime.{prepare_forget}
use whale_ai_sdk.Store.Types.{SessionRecord}

module _ {V : Type 0} ⦃v : Eq V⦄ ⦃env : Env V⦄ where
  -- What `forget` was allowed on, and the tombstone that it leaves.
  pub record Forgotten (r : SessionRecord V) (expected : ℕ) (r' : SessionRecord V) : Type 0 where
    pub detached : r.owner ≡ none
    pub present : r.forgotten ≡ false
    pub current : r.revision ≡ expected
    pub forgotten : r'.forgotten ≡ true
    pub configuration : r'.configuration ≡ env.object []
    pub history : r'.history ≡ []
    pub runs : r'.runs ≡ []
    pub unknown_executions : r'.unknown_executions ≡ []
    pub identities : r'.historical_thread_ids ≡ []
    pub secret : r'.secret_digest ≡ r.secret_digest
    pub epoch : r'.epoch ≡ r.epoch
    pub revision : r'.revision ≡ r.revision + 1
    pub retired : is_some r'.retired_at_ms ≡ true
    pub again : (now expected' : ℕ) → prepare_forget now r' expected' ≡ ok none

  -- `forget` retires only a record that is present, has no owner and stands at the expected
  -- revision. The tombstone has the next revision, the secret and the epoch of the record, a time
  -- of retirement, and nothing of its configuration, history, runs, unknown executions and thread
  -- identities. Forgetting it again, at any revision, changes nothing and is no error.
  pub prepare_forget-Forgotten :
      (now : ℕ) (r : SessionRecord V) (expected : ℕ) (r' : SessionRecord V)
      → prepare_forget now r expected ≡ ok (some r')
      → Forgotten r expected r'
  unfolding prepare_forget retire touch
  prepare_forget-Forgotten now r expected r' h = record {
    detached = ground arith;
    present = ground arith;
    current = ground arith;
    forgotten = ground arith;
    configuration = ground arith;
    history = ground arith;
    runs = ground arith;
    unknown_executions = ground arith;
    identities = ground arith;
    secret = ground arith;
    epoch = ground arith;
    revision = ground arith;
    retired = ground arith;
    again = λ later expected'. ground arith;
  }
