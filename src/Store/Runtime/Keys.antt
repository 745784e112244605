-- ===== src/Store/Runtime/Keys.antt =====
-- `check_key` and `identity` of crates/whale-store/src/runtime.rs. The source folds the differences
-- of the bytes of two digests; both strings are equal exactly when the lengths are and no byte
-- differs.
use whale_ai_sdk.Base.{◌!=◌, ◌||◌, String, is_none, string_eq}
use whale_ai_sdk.Base.Text.{is_blank}
use whale_ai_sdk.Protocol.Recovery.{RecoveryKey, key_validate}
use whale_ai_sdk.Store.Env.{Env}
use whale_ai_sdk.Store.Error.{Result, checked, invalid, reject, unauthorized, ◌>>◌}
use whale_ai_sdk.Store.Types.{SessionRecord}

module _ {V : Type 0} ⦃env : Env V⦄ where
  open env use {as_object, is_uuid, sha256_hex}

  unfoldable pub check_key : SessionRecord V → RecoveryKey → Result (Unit {0})
  check_key r key = do
    checked (key_validate is_uuid key)
    reject (r.recovery_id != key.recovery_id || sha256_hex key.secret != r.secret_digest)
        unauthorized

  unfoldable pub identity : String → String → V → Result (Unit {0})
  identity owner thread configuration =
      reject (is_blank owner || is_blank thread || is_none (as_object configuration))
        (invalid "Invalid attachment/configuration")
