-- ===== src/Store/Backend/Interface.antt =====
-- The trait `SessionStore`: its operations over a state `S`, and what a client may rely on. A
-- backend that fails may leave any state behind, so a law speaks of a success only.
use whale_ai_sdk.Base.{Eq, List, Option, String, none, some, ◌≡◌, ◌≢◌, ℕ}
use whale_ai_sdk.Store.Env.{Env}
use whale_ai_sdk.Store.Error.{Result, ok}
use whale_ai_sdk.Store.Backend.Replace.{validate_create, validate_replace}
use whale_ai_sdk.Store.Types.{SessionRecord}

pub record SessionStore (V S : Type 0) ⦃v : Eq V⦄ ⦃env : Env V⦄ : Type 0 where
  pub create : S → SessionRecord V → S × Result (Unit {0})
  pub load : S → String → Result (Option (SessionRecord V))
  pub compare_exchange : S → String → ℕ → SessionRecord V → S × Result (Unit {0})
  pub list : S → Result (List (SessionRecord V))
  -- A committed exchange passed `validate_replace` against the record that was stored.
  pub exchange_checked :
      (s : S) (id : String) (expected : ℕ) (new : SessionRecord V)
      → (compare_exchange s id expected new).1 ≡ ok tt
      → (old : SessionRecord V) × (load s id ≡ ok (some old))
        × (validate_replace old id expected new ≡ ok tt)
  pub load-exchange :
      (s : S) (id : String) (expected : ℕ) (new : SessionRecord V)
      → (compare_exchange s id expected new).1 ≡ ok tt
      → load (compare_exchange s id expected new).0 id ≡ ok (some new)
  pub load-exchange_ne :
      (s : S) (id other : String) (expected : ℕ) (new : SessionRecord V)
      → (compare_exchange s id expected new).1 ≡ ok tt
      → other ≢ id
      → load (compare_exchange s id expected new).0 other ≡ load s other
  -- A new record is valid, at revision 1, and takes no identity in use.
  pub create_checked :
      (s : S) (new : SessionRecord V)
      → (create s new).1 ≡ ok tt
      → (validate_create new ≡ ok tt) × (load s new.recovery_id ≡ ok none)
  pub load-create :
      (s : S) (new : SessionRecord V)
      → (create s new).1 ≡ ok tt
      → load (create s new).0 new.recovery_id ≡ ok (some new)
  pub load-create_ne :
      (s : S) (new : SessionRecord V) (other : String)
      → (create s new).1 ≡ ok tt
      → other ≢ new.recovery_id
      → load (create s new).0 other ≡ load s other
