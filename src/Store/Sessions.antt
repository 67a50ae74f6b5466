-- ===== src/Store/Sessions.antt =====
-- Sessions and pending steps of oidc-gateway/src/store.rs: authorization sessions, pushed requests,
-- second factors, and the browser sessions of accounts and of the provider.
use jetauth.Prelude.{
  Text, str, ltb, Result, ok, err, ℕ, false, Option, none, some, ◌-◌, ◌*◌, ◌++◌, if◌then◌else◌,
}
use jetauth.Kv.{Kv, put, delete}
use jetauth.Action.{Action, reads, ignore, ◌>>=◌, ◌>>◌}
use jetauth.Store.Records.{
  AuthSession, PushedAuthRequest, MfaPending, AccountSession, IdpSession, RuntimeSettings,
}
use jetauth.Store.Wire.{Wire}
use jetauth.Store.Access.{kv_get, kv_write, sessions, clients}

abbrev pub ttl_mfa_pending : ℕ
ttl_mfa_pending = 300

abbrev pub ttl_account_session : ℕ
ttl_account_session = 1800

abbrev pub default_idp_session_ttl : ℕ
default_idp_session_ttl = 86400 * 7

abbrev pub ttl_par_request : ℕ
ttl_par_request = 90

abbrev pub par_key : Text → Text
par_key request_uri = str "par:" ++ request_uri

abbrev pub idp_key : Text → Text
idp_key token = str "idp:" ++ token

abbrev pub acct_key : Text → Text
acct_key token = str "acct:" ++ token

abbrev pub settings_key : Text
settings_key = str "settings:global"

abbrev pub default_settings : RuntimeSettings
default_settings = record {
  allow_registration = false;
  default_theme = none;
  idp_session_ttl_seconds = none;
}

-- `.ok().flatten().unwrap_or_default()`
abbrev settings_or_default : Result (Option RuntimeSettings) → RuntimeSettings
settings_or_default (ok (some settings)) = settings
settings_or_default (ok none) = default_settings
settings_or_default (err e) = default_settings

abbrev ttl_or_default : Option ℕ → ℕ
ttl_or_default none = default_idp_session_ttl
ttl_or_default (some ttl) = ttl

-- A read under the hashed key, and under the plain one where there is nothing.
abbrev pub or_fallback : {A : Type 0} → Result (Option A) → Result (Option A) → Result (Option A)
or_fallback (err e) plain = err e
or_fallback (ok (some a)) plain = ok (some a)
or_fallback (ok none) plain = plain

abbrev pub account_ttl : AccountSession → ℕ
account_ttl session =
    if ltb session.created_at session.expires_at
    then session.expires_at - session.created_at
    else ttl_account_session

module _ {Payload : Type 0} (kv : Kv Payload) (wire : Wire Payload) where
  unfoldable pub get_auth_session : Text → kv.State → Result (Option AuthSession)
  get_auth_session session_id = kv_get kv wire.auth_session sessions (str "session:" ++ session_id)

  unfoldable pub delete_auth_session : Text → Action kv.State (Unit {0})
  delete_auth_session session_id = kv_write kv delete sessions (str "session:" ++ session_id)

  unfoldable pub save_pushed_auth_request :
      Text → PushedAuthRequest → (ttl : ℕ) → Action kv.State (Unit {0})
  save_pushed_auth_request request_uri req ttl =
      kv_write kv (put (wire.pushed.encode req) (some ttl)) sessions (par_key request_uri)

  unfoldable pub get_pushed_auth_request : Text → kv.State → Result (Option PushedAuthRequest)
  get_pushed_auth_request request_uri = kv_get kv wire.pushed sessions (par_key request_uri)

  unfoldable pub delete_pushed_auth_request : Text → Action kv.State (Unit {0})
  delete_pushed_auth_request request_uri = kv_write kv delete sessions (par_key request_uri)

  unfoldable pub save_mfa_pending : Text → MfaPending → Action kv.State (Unit {0})
  save_mfa_pending mfa_token pending =
      kv_write kv (put (wire.mfa.encode pending) (some ttl_mfa_pending)) sessions
        (str "mfa:" ++ mfa_token)

  unfoldable pub get_mfa_pending : Text → kv.State → Result (Option MfaPending)
  get_mfa_pending mfa_token = kv_get kv wire.mfa sessions (str "mfa:" ++ mfa_token)

  unfoldable pub delete_mfa_pending : Text → Action kv.State (Unit {0})
  delete_mfa_pending mfa_token = kv_write kv delete sessions (str "mfa:" ++ mfa_token)

  unfoldable pub get_runtime_settings : kv.State → RuntimeSettings
  get_runtime_settings s = settings_or_default (kv_get kv wire.settings clients settings_key s)

  unfoldable pub save_runtime_settings : RuntimeSettings → Action kv.State (Unit {0})
  save_runtime_settings settings =
      kv_write kv (put (wire.settings.encode settings) none) clients settings_key

  unfoldable pub get_idp_session_ttl : kv.State → ℕ
  unfolding get_runtime_settings
  get_idp_session_ttl s = ttl_or_default (get_runtime_settings s).idp_session_ttl_seconds

  -- The tokens of browser sessions stand under their hashes.
  module _ (sha256_hex : Text → Text) where
    unfoldable pub save_account_session : Text → AccountSession → Action kv.State (Unit {0})
    save_account_session token session =
        kv_write kv (put (wire.account_session.encode session) (some (account_ttl session)))
          sessions (acct_key (sha256_hex token))

    unfoldable pub get_account_session : Text → kv.State → Result (Option AccountSession)
    get_account_session token s =
        or_fallback (kv_get kv wire.account_session sessions (acct_key (sha256_hex token)) s)
          (kv_get kv wire.account_session sessions (acct_key token) s)

    unfoldable pub delete_account_session : Text → Action kv.State (Unit {0})
    delete_account_session token =
        ignore (kv_write kv delete sessions (acct_key token))
        >> kv_write kv delete sessions (acct_key (sha256_hex token))

    unfoldable pub save_idp_session : Text → IdpSession → Action kv.State (Unit {0})
    unfolding get_idp_session_ttl
    save_idp_session token session = do
      ttl ← reads (λ s. ok (get_idp_session_ttl s))
      kv_write kv (put (wire.idp_session.encode session) (some ttl)) sessions
          (idp_key (sha256_hex token))

    unfoldable pub get_idp_session : Text → kv.State → Result (Option IdpSession)
    get_idp_session token s =
        or_fallback (kv_get kv wire.idp_session sessions (idp_key (sha256_hex token)) s)
          (kv_get kv wire.idp_session sessions (idp_key token) s)

    unfoldable pub delete_idp_session : Text → Action kv.State (Unit {0})
    delete_idp_session token =
        ignore (kv_write kv delete sessions (idp_key token))
        >> kv_write kv delete sessions (idp_key (sha256_hex token))
