-- ===== src/Tests.antt =====
-- Concrete inputs: stored values as the sum of what is stored, a host with toy hashes, and a
-- client, a user, a code and a refresh token on the in-memory service.
mod Tokens
mod Rotation
mod Members
mod Callers
mod Grants
mod Texts
mod Passwords
mod Once
mod Proofs
mod Endpoint
mod Devices
mod Tenants
mod Introspection
mod Authorization
use jetauth.Prelude.{
  Text, str, Result, ok, err, ℕ, refl, Bool, false, Option, none, some, List, [], ◌≡◌, ◌∷◌,
}
use jetauth.Json.{Json, Fields}
use jetauth.Kv.{Kv}
use jetauth.Kv.Memory.{Table}
use jetauth.Kv.Memory.Laws.{memory}
use jetauth.Store.Types.{
  User, AuthCode, RefreshEntry, OidcClient, DeviceCode, LoginAttempts, Membership, Tenant,
  UserConsent, Invitation,
}
use jetauth.Store.Records.{
  AuthSession, PushedAuthRequest, SocialIdentity, MfaPending, PasskeyChallenge, AccountSession,
  IdpSession, RuntimeSettings, SamlFlow, ScimIdentity,
}
use jetauth.Store.Wire.{Serde, Wire}
use jetauth.Token.Types.{Host, Request}

pub data Value : Type 0 where
  user_value : User → Value
  code_value : AuthCode → Value
  refresh_value : RefreshEntry → Value
  client_value : OidcClient → Value
  device_value : DeviceCode → Value
  attempts_value : LoginAttempts → Value
  membership_value : Membership → Value
  tenant_value : Tenant → Value
  consent_value : UserConsent → Value
  invitation_value : Invitation → Value
  auth_session_value : AuthSession → Value
  pushed_value : PushedAuthRequest → Value
  social_value : SocialIdentity → Value
  mfa_value : MfaPending → Value
  challenge_value : PasskeyChallenge → Value
  account_session_value : AccountSession → Value
  idp_session_value : IdpSession → Value
  settings_value : RuntimeSettings → Value
  saml_flow_value : SamlFlow → Value
  scim_identity_value : ScimIdentity → Value
  string_value : Text → Value
  flag_value : Bool → Value
  cached_value : Json × ℕ → Value
  known_ips_value : List Text → Value
  used_at_value : ℕ → Value
  raw_value : Text → Value
  consumed_value : Value
  consumed_by_value : Text → Value

abbrev refused : {A : Type 0} → Result A
refused = err (str "missing field")

abbrev user_of : Value → Result User
user_of (user_value a) = ok a
user_of _ = refused

abbrev code_of : Value → Result AuthCode
code_of (code_value a) = ok a
code_of _ = refused

abbrev refresh_of : Value → Result RefreshEntry
refresh_of (refresh_value a) = ok a
refresh_of _ = refused

abbrev client_of : Value → Result OidcClient
client_of (client_value a) = ok a
client_of _ = refused

abbrev device_of : Value → Result DeviceCode
device_of (device_value a) = ok a
device_of _ = refused

abbrev attempts_of : Value → Result LoginAttempts
attempts_of (attempts_value a) = ok a
attempts_of _ = refused

abbrev membership_of : Value → Result Membership
membership_of (membership_value a) = ok a
membership_of _ = refused

abbrev tenant_of : Value → Result Tenant
tenant_of (tenant_value a) = ok a
tenant_of _ = refused

abbrev consent_of : Value → Result UserConsent
consent_of (consent_value a) = ok a
consent_of _ = refused

abbrev invitation_of : Value → Result Invitation
invitation_of (invitation_value a) = ok a
invitation_of _ = refused

abbrev auth_session_of : Value → Result AuthSession
auth_session_of (auth_session_value a) = ok a
auth_session_of _ = refused

abbrev pushed_of : Value → Result PushedAuthRequest
pushed_of (pushed_value a) = ok a
pushed_of _ = refused

abbrev social_of : Value → Result SocialIdentity
social_of (social_value a) = ok a
social_of _ = refused

abbrev mfa_of : Value → Result MfaPending
mfa_of (mfa_value a) = ok a
mfa_of _ = refused

abbrev challenge_of : Value → Result PasskeyChallenge
challenge_of (challenge_value a) = ok a
challenge_of _ = refused

abbrev account_session_of : Value → Result AccountSession
account_session_of (account_session_value a) = ok a
account_session_of _ = refused

abbrev idp_session_of : Value → Result IdpSession
idp_session_of (idp_session_value a) = ok a
idp_session_of _ = refused

abbrev settings_of : Value → Result RuntimeSettings
settings_of (settings_value a) = ok a
settings_of _ = refused

abbrev saml_flow_of : Value → Result SamlFlow
saml_flow_of (saml_flow_value a) = ok a
saml_flow_of _ = refused

abbrev scim_identity_of : Value → Result ScimIdentity
scim_identity_of (scim_identity_value a) = ok a
scim_identity_of _ = refused

abbrev known_ips_of : Value → Result (List Text)
known_ips_of (known_ips_value a) = ok a
known_ips_of _ = refused

abbrev string_of : Value → Result Text
string_of (string_value a) = ok a
string_of _ = refused

abbrev flag_of : Value → Result Bool
flag_of (flag_value a) = ok a
flag_of _ = refused

abbrev cached_of : Value → Result (Json × ℕ)
cached_of (cached_value a) = ok a
cached_of _ = refused

abbrev bytes_of : Value → Text
bytes_of (raw_value t) = t
bytes_of _ = []

abbrev marker_user_of : Value → Option Text
marker_user_of (consumed_by_value u) = some u
marker_user_of _ = none

abbrev serde :
    {A : Type 0} (encode : A → Value) (decode : Value → Result A)
    → ((a : A) → decode (encode a) ≡ ok a)
    → Serde Value A
serde encode decode law = record { encode = encode; decode = decode; decode-encode = law }

abbrev pub wire : Wire Value
wire = record {
  user = serde user_value user_of (λ _. refl);
  auth_code = serde code_value code_of (λ _. refl);
  refresh = serde refresh_value refresh_of (λ _. refl);
  client = serde client_value client_of (λ _. refl);
  device = serde device_value device_of (λ _. refl);
  attempts = serde attempts_value attempts_of (λ _. refl);
  membership = serde membership_value membership_of (λ _. refl);
  tenant = serde tenant_value tenant_of (λ _. refl);
  consent = serde consent_value consent_of (λ _. refl);
  invitation = serde invitation_value invitation_of (λ _. refl);
  auth_session = serde auth_session_value auth_session_of (λ _. refl);
  pushed = serde pushed_value pushed_of (λ _. refl);
  social = serde social_value social_of (λ _. refl);
  mfa = serde mfa_value mfa_of (λ _. refl);
  challenge = serde challenge_value challenge_of (λ _. refl);
  account_session = serde account_session_value account_session_of (λ _. refl);
  idp_session = serde idp_session_value idp_session_of (λ _. refl);
  settings = serde settings_value settings_of (λ _. refl);
  saml_flow = serde saml_flow_value saml_flow_of (λ _. refl);
  scim_identity = serde scim_identity_value scim_identity_of (λ _. refl);
  known_ips = serde known_ips_value known_ips_of (λ _. refl);
  string = serde string_value string_of (λ _. refl);
  flag = serde flag_value flag_of (λ _. refl);
  cached = serde cached_value cached_of (λ _. refl);
  used_at = used_at_value;
  raw = raw_value;
  bytes = bytes_of;
  bytes-raw = λ _. refl;
  consumed = consumed_value;
  consumed-refused = (str "missing field", refl);
  consumed_by = consumed_by_value;
  consumed_by-refused = λ _. (str "missing field", refl);
  marker_user = marker_user_of;
  marker_user-consumed_by = λ _. refl;
}

abbrev pub kv : Kv Value
kv = memory Value

-- A hash that is its input behind one byte.
abbrev pub host : Host (Table Value)
host = record {
  sha256 = λ t. 7 ∷ t;
  base64url = λ t. b'=' ∷ t;
  sign = λ claims s. ok (str "signed");
  sign_id_token_for_client = λ claims client s. ok (str "signed id");
}

abbrev pub client : OidcClient
client = record {
  client_id = str "app";
  client_secret = none;
  redirect_uris = str "https://app/cb" ∷ [];
  post_logout_redirect_uris = [];
  grant_types = str "authorization_code" ∷ str "refresh_token" ∷ [];
  name = str "App";
  theme = none;
  backchannel_logout_uri = none;
  backchannel_logout_session_required = false;
  id_token_signed_response_alg = none;
  first_party = false;
  token_endpoint_auth_method = none;
  jwks = none;
  require_pushed_authorization_requests = false;
}

abbrev pub user : User
user = record {
  id = str "u1";
  email = str "ada@example.org";
  name = str "Ada Lovelace";
  password_hash = [];
  status = str "active";
  created_at = 1;
  superadmin = false;
  totp_secret = none;
  totp_enabled = false;
  recovery_codes = [];
  passkey_credentials = [];
}

abbrev pub auth_code : AuthCode
auth_code = record {
  user_id = str "u1";
  client_id = str "app";
  redirect_uri = str "https://app/cb";
  code_challenge = b'=' ∷ 7 ∷ str "verifier";
  code_challenge_method = str "S256";
  nonce = str "n";
  scope = str "openid offline_access";
  auth_time = 90;
  amr = str "pwd" ∷ [];
  acr = none;
  requested_id_token_claims = [];
  requested_userinfo_claims = [];
  extra_claims = [];
  expires_at = 400;
  csrf_token = [];
  state = str "st";
  sid = none;
  pending_consent = false;
}

abbrev pub request : List (Text × Text) → Request
request form = record {
  form = form;
  client = client;
  dpop_jkt = none;
  issuer = str "https://id";
  now = λ _. 100;
  random = str "r2";
}
