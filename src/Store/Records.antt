-- ===== src/Store/Records.antt =====
-- The records of sessions, pending steps and linked identities that oidc-gateway/src/store.rs keeps.
use jetauth.Store.Types.{ClientTheme}
use jetauth.Prelude.{Text, ℕ, Bool, Option, List}

pub record AuthSession : Type 0 where
  pub client_id : Text
  pub redirect_uri : Text
  pub code_challenge : Text
  pub code_challenge_method : Text
  pub state : Text
  pub scope : Text
  pub nonce : Text
  pub max_age : Option ℕ
  pub acr_values : List Text
  pub requested_id_token_claims : List Text
  pub requested_userinfo_claims : List Text
  pub hinted_user_id : Option Text
  pub hinted_email : Option Text
  pub created_at : ℕ
  pub needs_consent : Bool
  pub prompt : Option Text
  pub sid : Option Text

-- The parameters are a map; here they are a list with one entry for a key.
pub record PushedAuthRequest : Type 0 where
  pub client_id : Text
  pub parameters : List (Text × Text)
  pub created_at : ℕ
  pub expires_at : ℕ

pub record SocialIdentity : Type 0 where
  pub provider : Text
  pub provider_sub : Text
  pub user_id : Text
  pub email : Text
  pub linked_at : ℕ

pub record MfaPending : Type 0 where
  pub user_id : Text
  pub session_id : Text
  pub primary_amr : List Text
  pub expires_at : ℕ
  pub remote_ip : Text

pub record PasskeyChallenge : Type 0 where
  pub challenge : Text
  pub purpose : Text
  pub user_id : Text
  pub session_id : Text
  pub expires_at : ℕ

pub record AccountSession : Type 0 where
  pub user_id : Text
  pub created_at : ℕ
  pub expires_at : ℕ
  pub csrf_token : Text

pub record IdpSession : Type 0 where
  pub user_id : Text
  pub auth_time : ℕ
  pub expires_at : ℕ
  pub amr : List Text

pub record RuntimeSettings : Type 0 where
  pub allow_registration : Bool
  pub default_theme : Option ClientTheme
  pub idp_session_ttl_seconds : Option ℕ

pub record SamlFlow : Type 0 where
  pub sp_id : Text
  pub request_fields : List (Text × Text)
  pub binding : Text
  pub created_at : ℕ

pub record ScimIdentity : Type 0 where
  pub connection_id : Text
  pub external_id : Text
  pub user_id : Text
  pub version : ℕ
  pub created_at : ℕ
  pub updated_at : ℕ
