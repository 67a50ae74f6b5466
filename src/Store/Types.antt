-- ===== src/Store/Types.antt =====
-- The records that oidc-gateway/src/store.rs keeps.
use jetauth.Json.{Json}
use jetauth.Prelude.{Text, ℕ, Bool, Option, List}

pub record PasskeyCredential : Type 0 where
  pub credential_id : Text
  pub public_key : Text
  pub sign_count : ℕ
  pub name : Text
  pub created_at : ℕ

pub record User : Type 0 where
  pub id : Text
  pub email : Text
  pub name : Text
  pub password_hash : Text
  pub status : Text
  pub created_at : ℕ
  pub superadmin : Bool
  pub totp_secret : Option Text
  pub totp_enabled : Bool
  pub recovery_codes : List Text
  pub passkey_credentials : List PasskeyCredential

pub record AuthCode : Type 0 where
  pub user_id : Text
  pub client_id : Text
  pub redirect_uri : Text
  pub code_challenge : Text
  pub code_challenge_method : Text
  pub nonce : Text
  pub scope : Text
  pub auth_time : ℕ
  pub amr : List Text
  pub acr : Option Text
  pub requested_id_token_claims : List Text
  pub requested_userinfo_claims : List Text
  pub extra_claims : List (Text × Text)
  pub expires_at : ℕ
  pub csrf_token : Text
  pub state : Text
  pub sid : Option Text
  pub pending_consent : Bool

pub record RefreshEntry : Type 0 where
  pub user_id : Text
  pub client_id : Text
  pub expires_at : ℕ
  pub scope : Text
  pub version : ℕ
  pub auth_time : ℕ
  pub amr : List Text
  pub acr : Option Text
  pub requested_id_token_claims : List Text
  pub requested_userinfo_claims : List Text
  pub issued_at : ℕ
  pub sid : Option Text
  pub dpop_jkt : Option Text

pub record ClientTheme : Type 0 where
  pub app_name : Text
  pub logo_url : Option Text
  pub logo_height : Option Text
  pub favicon_url : Option Text
  pub theme_preset : Option Text
  pub primary_color : Option Text
  pub primary_hover_color : Option Text
  pub background_color : Option Text
  pub background_image_url : Option Text
  pub card_background : Option Text
  pub card_border : Option Text
  pub card_shadow : Option Text
  pub card_backdrop_blur : Option Text
  pub text_color : Option Text
  pub text_muted_color : Option Text
  pub input_background : Option Text
  pub input_border_color : Option Text
  pub input_text_color : Option Text
  pub button_text_color : Option Text
  pub border_radius : Option Text
  pub font_family : Option Text
  pub font_url : Option Text
  pub footer_text : Option Text
  pub powered_by_text : Option Text
  pub hide_powered_by : Bool
  pub terms_url : Option Text
  pub privacy_url : Option Text
  pub help_url : Option Text
  pub custom_css : Option Text

pub record OidcClient : Type 0 where
  pub client_id : Text
  pub client_secret : Option Text
  pub redirect_uris : List Text
  pub post_logout_redirect_uris : List Text
  pub grant_types : List Text
  pub name : Text
  pub theme : Option ClientTheme
  pub backchannel_logout_uri : Option Text
  pub backchannel_logout_session_required : Bool
  pub id_token_signed_response_alg : Option Text
  pub first_party : Bool
  pub token_endpoint_auth_method : Option Text
  pub jwks : Option Json
  pub require_pushed_authorization_requests : Bool

pub record DeviceCode : Type 0 where
  pub device_code : Text
  pub user_code : Text
  pub client_id : Text
  pub scope : Text
  pub expires_at : ℕ
  pub status : Text
  pub user_id : Option Text
  pub sid : Option Text

pub record LoginAttempts : Type 0 where
  pub failures : ℕ
  pub locked_until : ℕ

pub record Membership : Type 0 where
  pub tenant_id : Text
  pub user_id : Text
  pub role : Text
  pub joined_at : ℕ

pub record Tenant : Type 0 where
  pub id : Text
  pub name : Text
  pub display_name : Text
  pub status : Text
  pub created_at : ℕ

pub record Invitation : Type 0 where
  pub tenant_id : Text
  pub email : Text
  pub role : Text
  pub token : Text
  pub invited_by : Text
  pub expires_at : ℕ

pub record UserConsent : Type 0 where
  pub user_id : Text
  pub client_id : Text
  pub scopes : List Text
  pub granted_at : ℕ
  pub updated_at : ℕ
