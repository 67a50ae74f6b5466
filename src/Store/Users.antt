-- ===== src/Store/Users.antt =====
-- Users: `get_user` of oidc-gateway/src/store.rs.
use jetauth.Kv.{Kv}
use jetauth.Store.Types.{User}
use jetauth.Store.Wire.{Wire}
use jetauth.Store.Access.{kv_get, users}
use jetauth.Prelude.{Text, str, Result, Option, ◌++◌}

abbrev pub user_key : Text → Text
user_key id = str "user:" ++ id

module _ {Payload : Type 0} (kv : Kv Payload) (wire : Wire Payload) where
  unfoldable pub get_user : Text → kv.State → Result (Option User)
  get_user id = kv_get kv wire.user users (user_key id)
