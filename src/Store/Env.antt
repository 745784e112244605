-- ===== src/Store/Env.antt =====
-- What the store asks of code outside the repository: `serde_json` (values, views, derived
-- serialization), `uuid` and `sha2`.
use whale_ai_sdk.Base.{◌≡◌, All, ◌<◌, ◌⊎◌, Bool, List, Option, some, String, ℕ}
use whale_ai_sdk.Base.TreeMap.{TreeMap, values}
use whale_ai_sdk.Protocol.Canonical.{CanonicalItem}
use whale_ai_sdk.Protocol.Limits.{SessionLimits}
use whale_ai_sdk.Protocol.Recovery.{SessionRunDefaults}
use whale_ai_sdk.Store.Types.{SessionRecord}

-- `V` is `serde_json::Value`, whose `==` is the argument `Eq V` of the functions that compare.
pub record Env (V : Type 0) : Type 0 where
  pub as_object : V → Option (TreeMap V)
  pub object : TreeMap V → V
  pub as_object-object : (m : TreeMap V) → as_object (object m) ≡ some m
  pub as_array : V → Option (List V)
  pub as_u64 : V → Option ℕ
  pub as_bool : V → Option Bool
  pub number : ℕ → V
  pub boolean : Bool → V
  pub as_u64-number : (n : ℕ) → as_u64 (number n) ≡ some n
  pub as_bool-boolean : (b : Bool) → as_bool (boolean b) ≡ some b
  -- A bound on the nesting of a value.
  pub rank : V → ℕ
  pub rank_array :
      (v : V) (items : List V) → as_array v ≡ some items → All (λ x. rank x < rank v) items
  pub rank_object :
      (v : V) (m : TreeMap V) → as_object v ≡ some m → All (λ x. rank x < rank v) (values m)
  pub is_null : V → Bool
  pub pointer : V → String → Option V
  -- `from_value`: the error's text, or the value.
  pub session_limits : V → String ⊎ SessionLimits
  pub run_defaults : V → String ⊎ SessionRunDefaults
  -- The lengths of the writes that `to_writer` makes; `inl` is its error.
  pub write_value : V → String ⊎ List ℕ
  pub write_object : TreeMap V → String ⊎ List ℕ
  pub write_items : List (CanonicalItem V) → String ⊎ List ℕ
  pub write_record : SessionRecord V → String ⊎ List ℕ
  pub to_value : SessionRecord V → Option V
  -- The serialized form has the field `forgotten`.
  pub to_value-forgotten :
      (a b : SessionRecord V) → to_value a ≡ to_value b → a.forgotten ≡ b.forgotten
  -- `Uuid::parse_str(s).is_ok()`.
  pub is_uuid : String → Bool
  -- `format!("{:x}", Sha256::digest(s))`.
  pub sha256_hex : String → String
