-- ===== src/Authorize/Session.antt =====
-- The provider's browser session: `get_idp_session_from_headers` of oidc-gateway/src/account.rs,
-- and its neighbours, by the token of the cookie, and how oidc-gateway/src/authorize.rs judges the session.
use jetauth.Prelude.{
  Text, str, contains, ltb, leb, Result, ok, err, ℕ, Bool, true, false, Option, none, some, List,
  ◌+◌, ◌-◌, ◌&&◌, ◌||◌, ◌==◌, if◌then◌else◌, text_eq,
}
use jetauth.Kv.{Kv}
use jetauth.Action.{reads, Action, pure, ignore, ◌>>=◌, ◌>>◌}
use jetauth.Store.Types.{User}
use jetauth.Store.Records.{IdpSession}
use jetauth.Store.Wire.{Wire}
use jetauth.Store.Users.{get_user}
use jetauth.Store.Refresh.{is_user_revoked}
use jetauth.Store.Sessions.{
  get_idp_session, delete_idp_session, save_idp_session, get_idp_session_ttl, save_account_session,
}

abbrev pub session_ttl : ℕ
session_ttl = 1800

abbrev pub acr_totp_mfa : Text
acr_totp_mfa = str "urn:lattice-id:mfa:totp"

abbrev pub has_mfa : List Text → Bool
has_mfa amr = contains amr (str "mfa") && contains amr (str "otp")

-- `acr_from_amr` of login.rs
unfoldable pub acr_from_amr : List Text → Option Text
acr_from_amr amr = if has_mfa amr then some acr_totp_mfa else none

-- `.unwrap_or(true)`
abbrev pub or_true : Result Bool → Bool
or_true (ok b) = b
or_true (err e) = true

abbrev pub is_active : Option User → Bool
is_active none = false
is_active (some u) = u.status == str "active"

module _ {Payload : Type 0} (kv : Kv Payload) (wire : Wire Payload) (sha256_hex : Text → Text)
    (now : ℕ) where
  abbrev drop_session : Text → Action kv.State (Option IdpSession)
  drop_session token = ignore (delete_idp_session kv wire sha256_hex token) >> pure none

  -- The session of a user who is there and active; otherwise it is dropped, unless the read failed.
  abbrev keep_if_active :
      Text → IdpSession → Result (Option User) → Action kv.State (Option IdpSession)
  keep_if_active token session (err e) = pure none
  keep_if_active token session (ok o) =
      if is_active o then pure (some session) else drop_session token

  abbrev pub is_over : IdpSession → kv.State → Bool
  is_over session s =
      ltb session.expires_at now
      || or_true (is_user_revoked kv wire session.user_id session.auth_time s)

  unfoldable pub live_session : Text → IdpSession → Action kv.State (Option IdpSession)
  unfolding get_user is_user_revoked delete_idp_session
  live_session token session s =
      if is_over session s
      then drop_session token s
      else keep_if_active token session (get_user kv wire session.user_id s) s

  abbrev of_read : Text → Result (Option IdpSession) → Action kv.State (Option IdpSession)
  of_read token (err e) = pure none
  of_read token (ok none) = pure none
  of_read token (ok (some session)) = live_session token session

  -- The argument is the token of the cookie, if there is one.
  unfoldable pub get_idp_session_from_headers : Option Text → Action kv.State (Option IdpSession)
  unfolding live_session get_idp_session
  get_idp_session_from_headers none s = (ok none, s)
  get_idp_session_from_headers (some token) s =
      of_read token (get_idp_session kv wire sha256_hex token s) s

  abbrev slide : Text → Option IdpSession → Action kv.State (Option ℕ)
  slide token none = pure none
  slide token (some session) = do
    ttl ← reads (λ s. ok (get_idp_session_ttl kv wire s))
    ignore (save_idp_session kv wire sha256_hex token (record session { expires_at = now + ttl }))
    pure (some ttl)

  -- `refresh_idp_session_cookie_header`, up to the text of the cookie: the session lives on for the
  -- configured time, which is answered.
  unfoldable pub refresh_idp_session_cookie_header : Option Text → Action kv.State (Option ℕ)
  unfolding get_idp_session_from_headers save_idp_session get_idp_session_ttl
  refresh_idp_session_cookie_header none = pure none
  refresh_idp_session_cookie_header (some token) =
      get_idp_session_from_headers (some token) >>= slide token

  -- `create_session_cookie`, up to the text of the cookie; the random texts are arguments.
  unfoldable pub create_session_cookie : (token csrf user_id : Text) → Action kv.State (Unit {0})
  unfolding save_account_session
  create_session_cookie token csrf user_id = save_account_session kv wire sha256_hex token (record {
    user_id = user_id;
    created_at = now;
    expires_at = now + session_ttl;
    csrf_token = csrf;
  })

-- The session's authentication is no older than the request allows.
abbrev fresh : ℕ → Option ℕ → IdpSession → Option IdpSession
fresh now none session = some session
fresh now (some age) session = if leb (now - session.auth_time) age then some session else none

unfoldable pub filter_age : (now : ℕ) → (max_age : Option ℕ) → Option IdpSession → Option IdpSession
filter_age now max_age none = none
filter_age now max_age (some session) = fresh now max_age session
