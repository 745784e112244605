-- ===== src/Tests/Json.antt =====
-- A small stand-in for `serde_json::Value` and for the functions that the store takes from other
-- packages. An object is a chain of its entries; there are no arrays.
use whale_ai_sdk.Base.{
  ◌+◌, ◌<◌, ◌≡◌, ◌∷◌, ◌⊎◌, All, Bool, Eq, List, Option, Option-cases, String, [], arith, bool_eq,
  false, inl, inr, nat_eq, none, refl, some, subst, string_eq, suc, true, ℕ,
}
use whale_ai_sdk.Base.TreeMap.{TreeMap, values}
use whale_ai_sdk.Protocol.Limits.{SessionLimits}
use whale_ai_sdk.Protocol.Recovery.{SessionRunDefaults}
use whale_ai_sdk.Store.Env.{Env}
use whale_ai_sdk.Store.Types.{SessionRecord}

pub data Json : Type 0 where
  null nil : Json
  boolean : Bool → Json
  number : ℕ → Json
  entry : String → Json → Json → Json

unfoldable pub json_dec : Discrete Json
json_dec = hlevel (Eq.dec string_eq, Eq.dec nat_eq, Eq.dec bool_eq)

instance unfoldable pub json_eq : Eq Json
unfolding json_dec
json_eq = record { dec = json_dec }

abbrev pub size : Json → ℕ
size (entry k v rest) = suc (size v + size rest)
size _ = 0

abbrev pub cons_entry : String → Json → Option (TreeMap Json) → Option (TreeMap Json)
cons_entry k v none = none
cons_entry k v (some m) = some ((k, v) ∷ m)

abbrev pub fields : Json → Option (TreeMap Json)
fields nil = some []
fields (entry k v rest) = cons_entry k v (fields rest)
fields _ = none

abbrev pub object : TreeMap Json → Json
object [] = nil
object ((k, v) ∷ m) = entry k v (object m)

pub fields-object : (m : TreeMap Json) → fields (object m) ≡ some m
fields-object [] = refl
fields-object ((k, v) ∷ m) = ground (arith, fields-object m)

pub All-larger :
    (m : List Json) (a b : ℕ) → a < b → All (λ x. size x < a) m → All (λ x. size x < b) m
All-larger [] a b h small = tt
All-larger (x ∷ m) a b h small = (omega (arith, small.0), All-larger m a b h small.1)

pub size_object :
    (v : Json) (m : TreeMap Json) → fields v ≡ some m → All (λ x. size x < size v) (values m)
size_object null m h = cc
size_object nil [] h = tt
size_object nil (x ∷ m) h = cc
size_object (boolean b) m h = cc
size_object (number n) m h = cc
size_object (entry k v rest) m h = elim (Option-cases (fields rest)) [
  | inl missing ↦ absurd (ground arith)
  | inr (others, found) ↦
      let e : (k, v) ∷ others ≡ m = ground arith in
      subst (λ z. All (λ x. size x < suc (size v + size rest)) (values z)) e
        (
          omega arith,
          All-larger (values others) (size rest) (suc (size v + size rest)) (omega arith)
              (size_object rest others found),
        )
]

abbrev as_number : Json → Option ℕ
as_number (number n) = some n
as_number _ = none

abbrev as_boolean : Json → Option Bool
as_boolean (boolean b) = some b
as_boolean _ = none

abbrev is_null : Json → Bool
is_null null = true
is_null _ = false

-- A session states a limit of three turns, and run defaults are those of every object.
abbrev limits_of : Json → String ⊎ SessionLimits
limits_of v = inr (record {
  max_accepted_turns = some 3;
  max_history_bytes = some 1000;
  max_model_request_bytes = some 1000;
})

abbrev defaults_of : Json → String ⊎ SessionRunDefaults
defaults_of v = inr (record { max_steps = 5; timeout_ms = some 60 })

abbrev pointer_of : Json → String → Option Json
pointer_of v path = some nil

abbrev stamped : SessionRecord Json → Option Json
stamped r = some (boolean r.forgotten)

pub stamped-forgotten :
    (a b : SessionRecord Json) → stamped a ≡ stamped b → a.forgotten ≡ b.forgotten
stamped-forgotten a b h = cc

-- Sixty-four hexadecimal digits, whatever the secret.
abbrev pub digest : String → String
digest secret = "0123456789abcdef0123456789abcdef0123456789abcdef0123456789abcdef"

instance unfoldable pub json_env : Env Json
json_env = record {
  as_object = fields;
  object = object;
  as_object-object = fields-object;
  as_array = λ v. none;
  as_u64 = as_number;
  as_bool = as_boolean;
  number = number;
  boolean = boolean;
  as_u64-number = λ n. refl;
  as_bool-boolean = λ b. refl;
  rank = size;
  rank_array = λ v items h. cc;
  rank_object = size_object;
  is_null = is_null;
  pointer = pointer_of;
  session_limits = limits_of;
  run_defaults = defaults_of;
  write_value = λ v. inr (size v ∷ []);
  write_object = λ m. inr (size (object m) ∷ []);
  write_items = λ items. inr [];
  write_record = λ r. inr (1 ∷ []);
  to_value = stamped;
  to_value-forgotten = stamped-forgotten;
  is_uuid = λ s. true;
  sha256_hex = digest;
}
