-- ===== src/Store/Journal/Poisoned.antt =====
-- A worker over the commands that it receives: what poisons it, and what that entails.
use whale_ai_sdk.Base.{◌∷◌, ◌++◌, Eq, List, Option, String, [], none, some, ◌≡◌, ℕ}
use whale_ai_sdk.Store.Backend.Interface.{SessionStore}
use whale_ai_sdk.Store.Env.{Env}
use whale_ai_sdk.Store.Error.{StoreError, Result, err, ok, poisoned}
use whale_ai_sdk.Store.Journal.{Lease, handle}
use whale_ai_sdk.Store.Journal.Apply.{Action, Response}
use whale_ai_sdk.Store.State.Mutate.{FreshIds}
use whale_ai_sdk.Store.Types.{SessionRecord}
use whale_ai_sdk.Store.Journal.Outcomes.{Fails, Works}

-- A command, with its fresh identities and time.
abbrev pub Command : Type 0 → Type 0
Command V = FreshIds × ℕ × Action V

-- The worker's loop over the commands it receives, each with its fresh identities and time:
-- the last store and poison, and the replies in order.
pub record Served (V S : Type 0) : Type 0 where
  pub store : S
  pub poison : Option String
  pub replies : List (Result (Response V))

module _ {V : Type 0} where
  -- Every reply of a list is the given error.
  abbrev pub AllRefused : Result (Response V) → List (Result (Response V)) → Type 0
  AllRefused e [] = Unit
  AllRefused e (reply ∷ rest) = (reply ≡ e) × AllRefused e rest

module _ {V S : Type 0} ⦃v : Eq V⦄ ⦃env : Env V⦄ ⦃backend : SessionStore V S⦄ where
  unfoldable pub serve : S → Lease → Option String → List (FreshIds × ℕ × Action V) → Served V S
  serve s lease poison [] = record { store = s; poison = poison; replies = [] }
  serve s lease poison ((fresh, now, action) ∷ rest) =
      let h = handle fresh now s lease poison action in
      let others = serve h.store lease h.poison rest in
      record others { replies = h.reply ∷ others.replies }

  abbrev pub IsWorking : S → Lease → Command V → Type 0
  IsWorking s lease (fresh, now, action) =
      (r : SessionRecord V) × (backend.load s lease.id ≡ ok (some r))
      × Works fresh now s lease action r

  abbrev pub after : S → Lease → Command V → S
  after s lease (fresh, now, action) = (handle fresh now s lease none action).store

  -- The store did what it was asked for each command, from the store that the ones before left.
  abbrev pub AllWork : S → Lease → List (Command V) → Type 0
  AllWork s lease [] = Unit
  AllWork s lease (c ∷ commands) = IsWorking s lease c × AllWork (after s lease c) lease commands

  abbrev pub Failing : S → Lease → Command V → String → S → Type 0
  Failing s lease (fresh, now, action) reason s' = Fails fresh now s lease action reason s'

  -- A run that was poisoned: the commands before, the one for which the store failed, and the ones
  -- after it.
  pub record Poisoning (s : S) (lease : Lease) (commands : List (Command V)) (run : Served V S)
      : Type 0 where
    pub before : List (Command V)
    pub failing : Command V
    pub later : List (Command V)
    pub split : commands ≡ before ++ failing ∷ later
    pub worked : AllWork s lease before
    pub healthy : (serve s lease none before).poison ≡ none
    pub reason : String
    pub failed : Failing (serve s lease none before).store lease failing reason run.store
    pub poison : run.poison ≡ some reason
    pub error : StoreError
    pub refusals : List (Result (Response V))
    pub replies : run.replies ≡ (serve s lease none before).replies ++ err error ∷ refusals
    pub refused : AllRefused (err (poisoned reason)) refusals
