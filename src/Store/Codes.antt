-- ===== src/Store/Codes.antt =====
-- Authorization codes: "Auth code operations" of oidc-gateway/src/store.rs.
pub mod SingleUse
use jetauth.Kv.{Kv, put, cas, delete}
use jetauth.Action.{Action}
use jetauth.Store.Types.{AuthCode}
use jetauth.Store.Wire.{Wire}
use jetauth.Store.Access.{kv_get, kv_get_revision, kv_write, sessions, ttl_auth_code}
use jetauth.Prelude.{Text, str, Result, ℕ, Option, some, ◌++◌}

abbrev pub code_key : Text → Text
code_key code = str "code:" ++ code

module _ {Payload : Type 0} (kv : Kv Payload) (wire : Wire Payload) where
  unfoldable pub save_auth_code : Text → AuthCode → Action kv.State (Unit {0})
  save_auth_code code auth_code =
      kv_write kv (put (wire.auth_code.encode auth_code) (some ttl_auth_code)) sessions
        (code_key code)

  unfoldable pub get_auth_code : Text → kv.State → Result (Option AuthCode)
  get_auth_code code = kv_get kv wire.auth_code sessions (code_key code)

  unfoldable pub get_auth_code_cas : Text → kv.State → Result (Option (AuthCode × ℕ))
  get_auth_code_cas code = kv_get_revision kv wire.auth_code sessions (code_key code)

  unfoldable pub consume_auth_code : Text → ℕ → Action kv.State (Unit {0})
  consume_auth_code code rev =
      kv_write kv (cas wire.consumed rev (some ttl_auth_code)) sessions (code_key code)

  unfoldable pub delete_auth_code : Text → Action kv.State (Unit {0})
  delete_auth_code code = kv_write kv delete sessions (code_key code)
