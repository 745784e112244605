-- ===== src/Store/Configuration.antt =====
-- `PersistedSessionConfigurationV2` (crates/whale-store/src/configuration.rs), and the limits on
-- metadata (crates/whale-protocol/src/session_management.rs). The error for an unknown version
-- leaves its number out.
pub mod Migration
pub mod Depth
use whale_ai_sdk.Base.{
  ◌!=◌, ◌&&◌, ◌==◌, ◌||◌, ◌∷◌, ◌+◌, Bool, Eq, List, Option, String, [], bool_eq, false,
  if◌then◌else◌, inl, inr, is_some, leb, length, ltb, map, max, none, not, saturating_add, some,
  true, zero, suc, ◌⊎◌, ℕ, nat_eq,
}
use whale_ai_sdk.Base.TreeMap.{TreeMap, get, has_key, insert, remove, values}
use whale_ai_sdk.Protocol.Limits.{serialized_bytes}
use whale_ai_sdk.Protocol.Recovery.{SessionRunDefaults, defaults_validate}
use whale_ai_sdk.Store.Env.{Env}
use whale_ai_sdk.Store.Error.{Result, checked, err, invalid, ok, ok_or, reject, ◌>>=◌, ◌>>◌}
use whale_ai_sdk.Store.State.Queries.{or_invalid}

pub record Configuration (V : Type 0) : Type 0 where
  pub session : TreeMap V
  pub run_defaults : V
  pub metadata : TreeMap V
  pub interactions_enabled : Bool

abbrev pub is_empty_map {ℓ} : {A : Type ℓ} → List A → Bool
is_empty_map [] = true
is_empty_map (x ∷ xs) = false

-- `values.max().unwrap_or(default)`.
abbrev pub max_or : ℕ → List ℕ → ℕ
max_or default [] = default
max_or default (n ∷ []) = n
max_or default (n ∷ m ∷ rest) = max n (max_or default (m ∷ rest))

module _ {V : Type 0} ⦃env : Env V⦄ where
  open env use {
    as_object, as_array, as_u64, as_bool, number, boolean, object, rank, run_defaults, write_object,
  }

  -- `Value::Object(map)` or not.
  unfoldable pub object_or : Option V → String → Result (TreeMap V)
  object_or none message = err (invalid message)
  object_or (some v) message = ok_or (as_object v) (invalid message)

  unfoldable pub validate_run_defaults : V → Result (Unit {0})
  validate_run_defaults v = do
    defaults ← or_invalid (run_defaults v)
    checked (defaults_validate defaults)

  validate_tools : List V → Result (Unit {0})
  validate_tools [] = ok tt
  validate_tools (tool ∷ rest) = do
    fields ← ok_or (as_object tool) (invalid "Persisted Session tools must contain objects")
    reject (has_key fields "binding_id")
        (invalid "Persisted Session tools cannot contain host binding_id")
    validate_tools rest

  tools_of : Option V → Result (List V)
  tools_of none = ok []
  tools_of (some v) = ok_or (as_array v) (invalid "Persisted Session tools must be an array")

  unfoldable pub validate_session_identity : TreeMap V → Result (Unit {0})
  unfolding validate_tools tools_of
  validate_session_identity session = do
    reject (has_key session "session_id")
        (invalid "Persisted Session attachment identity cannot contain session_id")
    tools ← tools_of (get session "tools")
    validate_tools tools

  -- The metadata inside a session of version 1, and the session without it.
  take_metadata : TreeMap V → Result (TreeMap V)
  take_metadata session = elim (get session "metadata") [
    | none ↦ ok []
    | some v ↦ ok_or (as_object v) (invalid "Persisted Session metadata must be an object")
  ]

  -- The parts of a version 1 object: with a `session`, or the compact form.
  split_v1 : TreeMap V → Option V → Result (TreeMap V × V)
  split_v1 root (some session) = do
    fields ←
        ok_or (as_object session)
          (invalid "Persisted Session configuration session must be an object")
    let rest = remove (remove root "session") "run_defaults"
    reject (not (is_empty_map rest))
        (invalid "Persisted Session configuration V1 has unknown top-level fields")
    ok (fields, or_default (get root "run_defaults"))
    where
      or_default : Option V → V
      or_default none = object []
      or_default (some v) = v
  split_v1 root none = ok (remove root "run_defaults", or_default (get root "run_defaults"))
    where
      or_default : Option V → V
      or_default none = object []
      or_default (some v) = v

  unfoldable pub migrate_v1 : TreeMap V → Result (Configuration V)
  unfolding split_v1 take_metadata validate_run_defaults validate_session_identity
  migrate_v1 root = do
    (fields, defaults) ← split_v1 root (get root "session")
    metadata ← take_metadata fields
    let session = remove fields "metadata"
    validate_run_defaults defaults
    validate_session_identity session
    ok (record {
      session = session;
      run_defaults = defaults;
      metadata = metadata;
      interactions_enabled = false;
    })

  -- The checks that versions 2 and 3 end with.
  unfoldable pub checked_configuration : Configuration V → String → Result (Configuration V)
  unfolding validate_run_defaults validate_session_identity
  checked_configuration c message = do
    validate_run_defaults c.run_defaults
    validate_session_identity c.session
    reject (has_key c.session "metadata") (invalid message)
    ok c

  unfoldable pub parse_v2 : TreeMap V → Result (Configuration V)
  unfolding object_or checked_configuration
  parse_v2 root = do
    session ←
        object_or (get root "session")
          "Persisted Session configuration V2 requires an object session"
    defaults ←
        ok_or (get root "run_defaults")
          (invalid "Persisted Session configuration V2 requires run_defaults")
    metadata ←
        object_or (get root "metadata")
          "Persisted Session configuration V2 requires object metadata"
    let rest = remove (remove (remove root "session") "run_defaults") "metadata"
    reject (not (is_empty_map rest))
        (invalid "Persisted Session configuration V2 has unknown top-level fields")
    checked_configuration
        (record {
          session = session;
          run_defaults = defaults;
          metadata = metadata;
          interactions_enabled = false;
        })
        "Persisted Session configuration V2 metadata must be top-level"

  unfoldable pub parse_features : TreeMap V → Result Bool
  parse_features features = do
    let message : String =
        "Persisted Session configuration V3 requires boolean runtime_features.interactions_enabled"
    value ← ok_or (get features "interactions_enabled") (invalid message)
    enabled ← ok_or (as_bool value) (invalid message)
    reject (not (is_empty_map (remove features "interactions_enabled")))
        (invalid "Persisted Session configuration V3 has unknown runtime_features")
    ok enabled

  unfoldable pub parse_v3 : TreeMap V → Result (Configuration V)
  unfolding object_or parse_features checked_configuration
  parse_v3 root = do
    session ←
        object_or (get root "session")
          "Persisted Session configuration V3 requires an object session"
    defaults ←
        ok_or (get root "run_defaults")
          (invalid "Persisted Session configuration V3 requires run_defaults")
    metadata ←
        object_or (get root "metadata")
          "Persisted Session configuration V3 requires object metadata"
    features ←
        object_or (get root "runtime_features")
          "Persisted Session configuration V3 requires object runtime_features"
    enabled ← parse_features features
    let rest =
        remove (remove (remove (remove root "session") "run_defaults") "metadata")
          "runtime_features"
    reject (not (is_empty_map rest))
        (invalid "Persisted Session configuration V3 has unknown top-level fields")
    checked_configuration
        (record {
          session = session;
          run_defaults = defaults;
          metadata = metadata;
          interactions_enabled = enabled;
        })
        "Persisted Session configuration V3 metadata must be top-level"

  unfoldable pub by_version : ℕ → TreeMap V → Result (Configuration V × Bool)
  unfolding migrate_v1 parse_v2 parse_v3
  by_version version root =
      if version == 1
      then (do c ← migrate_v1 root; ok (c, true))
      else if version == 2
      then (do c ← parse_v2 root; ok (c, true))
      else if version == 3
      then (do c ← parse_v3 root; ok (c, false))
      else err (invalid "Unsupported persisted Session configuration version")

  -- The configuration in its current form, and whether it was of an older version.
  unfoldable pub parse_and_migrate : V → Result (Configuration V × Bool)
  unfolding by_version
  parse_and_migrate value = do
    root ← ok_or (as_object value) (invalid "Persisted Session configuration must be an object")
    let message : String = "Persisted Session configuration requires an integer version"
    stated ← ok_or (get root "version") (invalid message)
    version ← ok_or (as_u64 stated) (invalid message)
    by_version version (remove root "version")

  -- `json!({..})` of the current version.
  unfoldable pub into_value : Configuration V → V
  into_value c = object (
      insert
        (insert
          (insert (insert (insert [] "version" (number 3)) "session" (object c.session))
            "run_defaults" c.run_defaults)
          "metadata" (object c.metadata))
        "runtime_features"
        (object (insert [] "interactions_enabled" (boolean c.interactions_enabled))))

  -- The depth below a value at depth `parent`; the fuel is above the nesting of the value.
  unfoldable pub value_depth : ℕ → V → ℕ → ℕ
  value_depth zero v parent = parent
  value_depth (suc fuel) v parent =
      let deeper = saturating_add parent 1 in
      elim (as_array v) [
        | some items ↦ max_or deeper (map (λ x. value_depth fuel x deeper) items)
        | none ↦ elim (as_object v) [
          | some fields ↦ max_or deeper (map (λ x. value_depth fuel x deeper) (values fields))
          | none ↦ parent
        ]
      ]

  unfoldable pub validate_metadata_replacement : TreeMap V → Result (Unit {0})
  unfolding value_depth
  validate_metadata_replacement metadata = do
    reject (ltb 256 (length metadata)) (invalid "Session metadata exceeds 256 top-level keys")
    bytes ← or_invalid (serialized_bytes (write_object metadata))
    reject (ltb 65536 bytes) (invalid "Session metadata exceeds 65536 serialized bytes")
    let depth = max_or 1 (map (λ x. value_depth (suc (rank x)) x 1) (values metadata))
    reject (ltb 16 depth) (invalid "Session metadata exceeds nesting depth 16")

  unfoldable pub replace_metadata : Configuration V → TreeMap V → Result (Configuration V)
  unfolding validate_metadata_replacement
  replace_metadata c metadata = do
    validate_metadata_replacement metadata
    ok (record c { metadata = metadata })
