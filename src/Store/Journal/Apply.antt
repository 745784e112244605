-- ===== src/Store/Journal/Apply.antt =====
-- `Action`, `Response` and `apply` of crates/whale-store/src/runtime.rs, and the normal forms of
-- a configuration.
use whale_ai_sdk.Base.{
  pair_eq, list_eq, ◌!=◌, ◌&&◌, ◌||◌, ◌∷◌, Bool, Eq, List, Option, String, [], all, any_repeat,
  contains, false, if◌then◌else◌, is_none, map, nat_eq, none, not, some, string_eq, true, ℕ,
}
use whale_ai_sdk.Base.TreeMap.{TreeMap, get}
use whale_ai_sdk.Protocol.Canonical.{CanonicalItem}
use whale_ai_sdk.Protocol.Recovery.{RecoverySnapshot, UnknownExecution}
use whale_ai_sdk.Protocol.Runs.{RunSnapshot, StartTurnParams}
use whale_ai_sdk.Store.Configuration.{
  Configuration, into_value, parse_and_migrate, replace_metadata,
}
use whale_ai_sdk.Store.Env.{Env}
use whale_ai_sdk.Store.Error.{Result, active, conflict, err, invalid, ok, reject, ◌>>=◌, ◌>>◌}
use whale_ai_sdk.Store.Retention.Lifecycle.{mark_detached}
use whale_ai_sdk.Store.State.Begin.{begin}
use whale_ai_sdk.Store.State.Finalize.{finalize, recover}
use whale_ai_sdk.Store.State.Mutate.{FreshIds, mutate}
use whale_ai_sdk.Store.State.Queries
use whale_ai_sdk.Store.Types.{FinalizedRun, RunMutation, SessionRecord}

pub data Action (V : Type 0) : Type 0 where
  read : Action V
  begins : StartTurnParams V → RunSnapshot V → V → Action V
  commits : String → RunMutation V → Action V
  finalizes : String → RunSnapshot V → Action V
  replaces : V → Action V
  replaces_metadata : TreeMap V → Action V
  acknowledges : ℕ → List String → Action V
  detaches : Action V

-- `receipt` is the pair of fields of `CommitReceipt`, `shown` is `Response::Snapshot`.
pub data Response (V : Type 0) : Type 0 where
  recorded : SessionRecord V → Response V
  flag : Bool → Response V
  receipt : ℕ → Option (CanonicalItem V) → Response V
  finalized : FinalizedRun V → Response V
  shown : RecoverySnapshot V → Response V
  metadata : TreeMap V → Response V
  nothing : Response V

module _ {V : Type 0} where
  abbrev pub reads : Action V → Bool
  reads read = true
  reads _ = false

  -- The executions that an acknowledgment must name.
  abbrev pub required : List (UnknownExecution V) → List String
  required [] = []
  required (u ∷ rest) =
      let others = required rest in if u.acknowledged then others else u.execution_id ∷ others

  abbrev pub acknowledge_all : List (UnknownExecution V) → List (UnknownExecution V)
  acknowledge_all = map (λ (u : UnknownExecution V). record u { acknowledged = true })

-- The `HashSet`s of the two lists are equal.
unfoldable pub same_set : List String → List String → Bool
same_set xs ys = all (contains ys) xs && all (contains xs) ys

module _ {V : Type 0} ⦃v : Eq V⦄ ⦃env : Env V⦄ where
  open env use {as_object}

  -- `configuration.get("version").is_none()`, of a value that may be no object.
  unversioned : V → Bool
  unversioned value = elim (as_object value) [
    | none ↦ true
    | some fields ↦ is_none (get fields "version")
  ]

  unfoldable pub parse_versioned_configuration : V → Result (Option (Configuration V × Bool))
  unfolding unversioned
  parse_versioned_configuration value =
      if unversioned value then ok none else (do parsed ← parse_and_migrate value; ok (some parsed))

  unfoldable pub normalize_new_configuration : V → Result V
  normalize_new_configuration value = do
    parsed ← parse_versioned_configuration value
    normalized parsed
    where
      normalized : Option (Configuration V × Bool) → Result V
      normalized none = ok value
      normalized (some (c, migrated)) = ok (into_value c)

  compatible : Option (Configuration V × Bool) → Option (Configuration V × Bool) → Result (Unit {0})
  compatible (some (current, m)) (some (replacement, n)) =
      reject (current.metadata != replacement.metadata)
        (invalid "Use replace_metadata to change persisted Session metadata")
  compatible (some (current, m)) none =
      err (invalid "Versioned persisted Session configuration cannot become unversioned")
  compatible none _ = ok tt

  unfoldable pub normalize_configuration_replacement : V → V → Result V
  unfolding compatible
  normalize_configuration_replacement current value = do
    replacement ← normalize_new_configuration value
    before ← parse_versioned_configuration current
    after ← parse_versioned_configuration replacement
    compatible before after
    ok replacement

  unfoldable pub replace : SessionRecord V → V → Result (SessionRecord V)
  replace r configuration = do
    reject (Queries.active r) active
    reject (is_none (as_object configuration)) (invalid "Configuration must be an object")
    replacement ← normalize_configuration_replacement r.configuration configuration
    ok (record r { configuration = replacement })

  unfoldable pub change_metadata : SessionRecord V → TreeMap V → Result (SessionRecord V)
  change_metadata r fields = do
    (before, migrated) ← parse_and_migrate r.configuration
    after ← replace_metadata before fields
    ok (record r { configuration = into_value after })

  unfoldable pub acknowledge : SessionRecord V → ℕ → List String → Result (SessionRecord V)
  acknowledge r expected ids = do
    reject (r.revision != expected) conflict
    reject (Queries.active r) active
    reject (any_repeat [] ids || not (same_set ids (required r.unknown_executions)))
        (invalid "Acknowledgment must name the exact unresolved execution set")
    ok (record r { unknown_executions = acknowledge_all r.unknown_executions })

  unfoldable pub detach : ℕ → SessionRecord V → Result (SessionRecord V)
  detach now r = do (r', changed) ← recover r; ok (mark_detached r' now)

  -- The changed record and the response. `Record` never reaches `apply`.
  unfoldable pub apply :
      FreshIds → ℕ → SessionRecord V → Action V → Result (SessionRecord V × Response V)
  apply fresh now r read = err (invalid "unreachable")
  apply fresh now r (begins params snapshot options) = do
    (r', added) ← begin r params snapshot options
    ok (r', flag added)
  apply fresh now r (commits turn mutation) = do
    (r', item) ← mutate r fresh turn mutation
    ok (r', receipt r.revision item)
  apply fresh now r (finalizes turn candidate) = do
    (r', result) ← finalize r turn candidate
    ok (r', finalized result)
  apply fresh now r (replaces configuration) = do r' ← replace r configuration; ok (r', nothing)
  apply fresh now r (replaces_metadata fields) = do
    r' ← change_metadata r fields
    ok (r', metadata fields)
  apply fresh now r (acknowledges expected ids) = do
    r' ← acknowledge r expected ids
    ok (r', shown (Queries.snapshot r'))
  apply fresh now r detaches = do r' ← detach now r; ok (r', nothing)
