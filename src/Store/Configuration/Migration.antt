-- ===== src/Store/Configuration/Migration.antt =====
-- Parsing what `into_value` writes.
use whale_ai_sdk.Base.{
  nat_eq, string_dec, Bool, Option-cases, String, arith, false, inl, inr, refl, string_eq, ◌≡◌, ℕ,
}
use whale_ai_sdk.Base.TreeMap.{TreeMap, get, get-remove, has_key, insert, remove}
use whale_ai_sdk.Store.Configuration.{
  Configuration, by_version, checked_configuration, object_or, parse_features, into_value,
  migrate_v1, parse_and_migrate, parse_v2, parse_v3, validate_run_defaults,
  validate_session_identity,
}
use native.Mathlib.Decide.{ℕ_discrete}
use whale_ai_sdk.Store.Env.{Env}
use whale_ai_sdk.Store.Error.{ok}

module _ {V : Type 0} ⦃env : Env V⦄ where
  -- What every parsed configuration satisfies.
  pub record IsChecked (c : Configuration V) : Type 0 where
    pub defaults : validate_run_defaults c.run_defaults ≡ ok tt
    pub identity : validate_session_identity c.session ≡ ok tt
    pub no_metadata : has_key c.session "metadata" ≡ false

  has_key-remove : (m : TreeMap V) (k : String) → has_key (remove m k) k ≡ false
  has_key-remove m k = ground (arith, get-remove m k k)

  migrate_v1-IsChecked :
      (root : TreeMap V) (c : Configuration V) → migrate_v1 root ≡ ok c → IsChecked c
  unfolding migrate_v1
  migrate_v1-IsChecked root c h = grind (arith, has_key-remove)

  parse_v2-IsChecked : (root : TreeMap V) (c : Configuration V) → parse_v2 root ≡ ok c → IsChecked c
  unfolding parse_v2
  parse_v2-IsChecked root c h = ground arith

  parse_v3-IsChecked : (root : TreeMap V) (c : Configuration V) → parse_v3 root ≡ ok c → IsChecked c
  unfolding parse_v3
  parse_v3-IsChecked root c h = ground arith

  parse-into_value :
      (c : Configuration V) → IsChecked c → parse_and_migrate (into_value c) ≡ ok (c, false)
  unfolding into_value parse_and_migrate by_version parse_v3 parse_features object_or insert get
      remove string_eq string_dec checked_configuration nat_eq ℕ_discrete
  parse-into_value c h =
      rw
        (
          env.as_object-object _,
          env.as_u64-number _,
          env.as_object-object c.session,
          env.as_object-object c.metadata,
          env.as_object-object _,
          env.as_bool-boolean _,
          h.defaults,
          h.identity,
          h.no_metadata,
        )
        refl

  by_version-IsChecked :
      (version : ℕ) (root : TreeMap V) (c : Configuration V) (migrated : Bool)
      → by_version version root ≡ ok (c, migrated)
      → IsChecked c
  unfolding by_version
  by_version-IsChecked version root c migrated h =
      ground
        (arith, migrate_v1-IsChecked root c, parse_v2-IsChecked root c, parse_v3-IsChecked root c)

  parse_and_migrate-IsChecked :
      (value : V) (c : Configuration V) (migrated : Bool)
      → parse_and_migrate value ≡ ok (c, migrated)
      → IsChecked c
  unfolding parse_and_migrate
  parse_and_migrate-IsChecked value c migrated h = elim (Option-cases (env.as_object value)) [
    | inl missing ↦ absurd (ground arith)
    | inr (root, found) ↦ elim (Option-cases (get root "version")) [
      | inl missing ↦ absurd (ground arith)
      | inr (stated, there) ↦ elim (Option-cases (env.as_u64 stated)) [
        | inl missing ↦ absurd (ground arith)
        | inr (version, is) ↦
            by_version-IsChecked version (remove root "version") c migrated (ground arith)
      ]
    ]
  ]

  -- What a value of any version parses to can be written in the current version, and parsing that
  -- gives the same configuration and reports no migration.
  pub parse-migrated :
      (value : V) (c : Configuration V) (migrated : Bool)
      → parse_and_migrate value ≡ ok (c, migrated)
      → parse_and_migrate (into_value c) ≡ ok (c, false)
  parse-migrated value c migrated h =
      parse-into_value c (parse_and_migrate-IsChecked value c migrated h)
