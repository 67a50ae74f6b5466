-- ===== src/Store/OneTime.antt =====
-- Values that are used once: those that a compare-and-delete takes, and the markers that a create
-- leaves, of oidc-gateway/src/store.rs.
pub mod Taken
pub mod Recorded
use jetauth.Prelude.{
  Text, str, contains_text, Result, ok, err, ℕ, Bool, true, false, Option, none, some, [], ◌∷◌,
  ◌++◌, if◌then◌else◌, text_eq,
}
use jetauth.Kv.{Kv, put, create, cas_delete}
use jetauth.Action.{Action, pure, reads, map_err, ◌>>=◌}
use jetauth.Store.Records.{AuthSession, SamlFlow, PasskeyChallenge}
use jetauth.Store.Wire.{Serde, Wire}
use jetauth.Store.Access.{kv_get_revision, kv_write, sessions}

abbrev pub ttl_auth_session : ℕ
ttl_auth_session = 600

abbrev pub ttl_passkey_challenge : ℕ
ttl_passkey_challenge = 300

abbrev pub ttl_jti : ℕ
ttl_jti = 300

abbrev pub is_mismatch : Text → Bool
is_mismatch e = contains_text e (str "revision mismatch")

abbrev pub is_taken : Text → Bool
is_taken e = contains_text e (str "already exists")

abbrev any_error : Text → Bool
any_error e = true

-- What the deletion's outcome means: `lost` tells the errors of one who came too late.
abbrev pub taken_or :
    {S A : Type 0} → (Text → Bool) → A → Result (Unit {0}) × S → Result (Option A) × S
taken_or lost a (ok _, s) = (ok (some a), s)
taken_or lost a (err e, s) = (if lost e then ok none else err e, s)

abbrev already_used : Text → Text
already_used e = if is_taken e then str "SAML request has already been used" else e

abbrev pub jti_key : Text → Text
jti_key jti = str "jti:" ++ jti

module _ {Payload : Type 0} (kv : Kv Payload) where
  -- `kv_cas_delete`
  unfoldable pub kv_cas_delete : Text → Text → ℕ → Action kv.State (Unit {0})
  kv_cas_delete table key revision = kv_write kv (cas_delete revision) table key

  -- The deletion of what has been read.
  abbrev pub take :
      {A : Type 0} → (Text → Bool) → Text → Option (A × ℕ) → Action kv.State (Option A)
  take lost key none s = (ok none, s)
  take lost key (some (a, revision)) s = taken_or lost a (kv_cas_delete sessions key revision s)

  -- The reading and the deletion that the consuming functions share.
  unfoldable pub consume :
      {A : Type 0} → (Text → Bool) → Serde Payload A → Text → Action kv.State (Option A)
  unfolding kv_cas_delete
  consume lost serde key = do
    read ← reads (kv_get_revision kv serde sessions key)
    take lost key read

  -- `kv_create_raw`
  unfoldable pub kv_create_raw : Text → Text → Payload → Option ℕ → Action kv.State (Unit {0})
  kv_create_raw table key value ttl = kv_write kv (create value ttl) table key

  -- The last step of `check_and_record_jti`.
  abbrev pub replay_or : Result (Unit {0}) × kv.State → Result (Unit {0}) × kv.State
  replay_or (ok _, s) = (ok tt, s)
  replay_or (err e, s) = (err (if is_taken e then str "replay detected" else e), s)

  abbrev pub newly_or : Result (Unit {0}) × kv.State → Result Bool × kv.State
  newly_or (ok _, s) = (ok true, s)
  newly_or (err e, s) = (if is_taken e then ok false else err e, s)

module _ {Payload : Type 0} (kv : Kv Payload) (wire : Wire Payload) where
  unfoldable pub save_auth_session : Text → AuthSession → Action kv.State (Unit {0})
  save_auth_session session_id session =
      kv_write kv (put (wire.auth_session.encode session) (some ttl_auth_session)) sessions
        (str "session:" ++ session_id)

  unfoldable pub consume_auth_session : Text → Action kv.State (Option AuthSession)
  unfolding consume
  consume_auth_session session_id =
      consume kv any_error wire.auth_session (str "session:" ++ session_id)

  unfoldable pub save_google_csrf : Text → Text → Action kv.State (Unit {0})
  save_google_csrf csrf_token session_id =
      kv_write kv (put (wire.string.encode session_id) (some 600)) sessions
        (str "gcsrf:" ++ csrf_token)

  unfoldable pub consume_google_csrf : Text → Action kv.State (Option Text)
  unfolding consume
  consume_google_csrf csrf_token = consume kv is_mismatch wire.string (str "gcsrf:" ++ csrf_token)

  unfoldable pub save_social_csrf : Text → Text → Action kv.State (Unit {0})
  save_social_csrf csrf_token session_id =
      kv_write kv (put (wire.string.encode session_id) (some 600)) sessions
        (str "social_csrf:" ++ csrf_token)

  unfoldable pub consume_social_csrf : Text → Action kv.State (Option Text)
  unfolding consume
  consume_social_csrf csrf_token =
      consume kv is_mismatch wire.string (str "social_csrf:" ++ csrf_token)

  unfoldable pub save_admin_pkce_verifier : Text → Text → Action kv.State (Unit {0})
  save_admin_pkce_verifier state verifier =
      kv_write kv (put (wire.string.encode verifier) (some ttl_auth_session)) sessions
        (str "adminpkce:" ++ state)

  unfoldable pub consume_admin_pkce_verifier : Text → Action kv.State (Option Text)
  unfolding consume
  consume_admin_pkce_verifier state = consume kv is_mismatch wire.string (str "adminpkce:" ++ state)

  unfoldable pub save_saml_flow : Text → SamlFlow → Action kv.State (Unit {0})
  save_saml_flow session_id flow =
      kv_write kv (put (wire.saml_flow.encode flow) (some ttl_auth_session)) sessions
        (str "saml_flow:" ++ session_id)

  unfoldable pub consume_saml_flow : Text → Action kv.State (Option SamlFlow)
  unfolding consume
  consume_saml_flow session_id =
      consume kv any_error wire.saml_flow (str "saml_flow:" ++ session_id)

  unfoldable pub save_passkey_challenge : Text → PasskeyChallenge → Action kv.State (Unit {0})
  save_passkey_challenge token challenge =
      kv_write kv (put (wire.challenge.encode challenge) (some ttl_passkey_challenge)) sessions
        (str "passkey:" ++ token)

  unfoldable pub consume_passkey_challenge : Text → Action kv.State (Option PasskeyChallenge)
  unfolding consume
  consume_passkey_challenge token = consume kv is_mismatch wire.challenge (str "passkey:" ++ token)

  unfoldable pub check_and_record_jti :
      (now : ℕ) (jti : Text) (ttl : ℕ) → Action kv.State (Unit {0})
  unfolding kv_create_raw
  check_and_record_jti now jti ttl s =
      replay_or kv (kv_create_raw kv sessions (jti_key jti) (wire.used_at now) (some ttl) s)

  unfoldable pub record_totp_used : Text → ℕ → Action kv.State Bool
  unfolding kv_create_raw
  record_totp_used key ttl_seconds s =
      newly_or kv (kv_create_raw kv sessions key (wire.raw (b'1' ∷ [])) (some ttl_seconds) s)

  -- The request's identifier goes into the key as its hash.
  unfoldable pub reserve_saml_request :
      (sha256_hex : Text → Text) (sp_id request_id : Text) → Action kv.State (Unit {0})
  unfolding kv_create_raw
  reserve_saml_request sha256_hex sp_id request_id = map_err already_used (
      kv_create_raw kv sessions (str "saml_request:" ++ (sp_id ++ (b':' ∷ sha256_hex request_id)))
        (wire.raw []) (some ttl_auth_session))
