-- ===== src/Store/Wire.antt =====
-- What serde_json does for oidc-gateway/src/store.rs, as an interface: the stored form of each
-- record, and of the plain bytes and markers that stand beside them.
use jetauth.Json.{Json}
use jetauth.Store.Types.{
  User, AuthCode, RefreshEntry, OidcClient, DeviceCode, LoginAttempts, Membership, Tenant,
  UserConsent, Invitation,
}
use jetauth.Store.Records.{
  AuthSession, PushedAuthRequest, SocialIdentity, MfaPending, PasskeyChallenge, AccountSession,
  IdpSession, RuntimeSettings, SamlFlow, ScimIdentity,
}
use jetauth.Prelude.{Text, Result, ok, err, ℕ, Bool, Option, some, List, ◌≡◌}

-- `to_vec` and `from_slice` at one type.
pub record Serde (Payload A : Type 0) : Type 0 where
  pub encode : A → Payload
  pub decode : Payload → Result A
  pub decode-encode : (a : A) → decode (encode a) ≡ ok a

-- A payload that `from_slice` refuses at a type.
abbrev pub IsRefused : {Payload A : Type 0} → Serde Payload A → Payload → Type 0
IsRefused serde p = (e : Text) × (serde.decode p ≡ err e)

pub record Wire (Payload : Type 0) : Type 0 where
  pub user : Serde Payload User
  pub auth_code : Serde Payload AuthCode
  pub refresh : Serde Payload RefreshEntry
  pub client : Serde Payload OidcClient
  pub device : Serde Payload DeviceCode
  pub attempts : Serde Payload LoginAttempts
  pub membership : Serde Payload Membership
  pub tenant : Serde Payload Tenant
  pub consent : Serde Payload UserConsent
  pub invitation : Serde Payload Invitation
  pub auth_session : Serde Payload AuthSession
  pub pushed : Serde Payload PushedAuthRequest
  pub social : Serde Payload SocialIdentity
  pub mfa : Serde Payload MfaPending
  pub challenge : Serde Payload PasskeyChallenge
  pub account_session : Serde Payload AccountSession
  pub idp_session : Serde Payload IdpSession
  pub settings : Serde Payload RuntimeSettings
  pub saml_flow : Serde Payload SamlFlow
  pub scim_identity : Serde Payload ScimIdentity
  pub known_ips : Serde Payload (List Text)
  pub string : Serde Payload Text
  pub flag : Serde Payload Bool
  -- A `CacheEntry` of a JSON value: the value, and when it expires.
  pub cached : Serde Payload (Json × ℕ)
  -- {"used_at": t}
  pub used_at : ℕ → Payload
  -- Values that are bytes, not JSON.
  pub raw : Text → Payload
  pub bytes : Payload → Text
  pub bytes-raw : (t : Text) → bytes (raw t) ≡ t
  -- {"consumed": true} and {"consumed": true, "user_id": u}: the fields that the records require
  -- are missing.
  pub consumed : Payload
  pub consumed-refused : IsRefused auth_code consumed
  pub consumed_by : Text → Payload
  pub consumed_by-refused : (u : Text) → IsRefused refresh (consumed_by u)
  -- The user of a consumed marker, read as JSON: none if the value is no such marker.
  pub marker_user : Payload → Option Text
  pub marker_user-consumed_by : (u : Text) → marker_user (consumed_by u) ≡ some u
