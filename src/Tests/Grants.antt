-- ===== src/Tests/Grants.antt =====
-- Concrete requests of the device grant, the client credentials grant, revocation and the limiter,
-- and the claims of a user.
use jetauth.Prelude.{
  str, text_beq, contains, ok, refl, inl, true, false, none, some, [], arith, split_whitespace, ◌≡◌,
  ◌≢◌, ◌⊎◌, ◌∷◌, ◌>>=◌, text_eq, nat_eq,
}
use jetauth.Json.{null}
use jetauth.Kv.Memory.{Table, find}
use jetauth.Util.Query.{Form, form_value, check_no_duplicates}
use jetauth.Store.Types.{OidcClient, DeviceCode}
use jetauth.Store.Refresh.{refresh_key, get_refresh_token}
use jetauth.Abuse.{db_key, check_rate}
use jetauth.Abuse.Limit.{IsWithin, check_rate-IsWithin}
use jetauth.Tests.{Value, user_value, device_value, kv, wire, host, client, user, request}
use jetauth.Tests.Rotation.{refresh_entry, offline}
use jetauth.Token.Types.{Request, Response, TokenResponse, tokens, hex_sha256}
use jetauth.Token.Claims.{ClaimInput, has_email_scope, has_profile_scope, build_claims}
use jetauth.Token.Claims.Privacy.{Lacks, build_claims-private_email}
use jetauth.Token.ClientCredentials.{is_some, handle_client_credentials}
use jetauth.Token.ClientCredentials.Confidential.{IsMachine, handle_client_credentials-IsMachine}
use jetauth.Token.Revoke.{no_content, is_unproved, handle_revoke}
use jetauth.Token.Revoke.Own.{handle_revoke-foreign}

abbrev approved : DeviceCode
approved = record {
  device_code = str "d1";
  user_code = str "ABCD";
  client_id = str "app";
  scope = str "openid";
  expires_at = 400;
  status = str "approved";
  user_id = some (str "u1");
  sid = none;
}

abbrev polled : Table Value
polled =
    (str "users:user:u1", (user_value user, 1))
    ∷ (str "sessions:device:d1", (device_value approved, 2))
    ∷ []

abbrev polling : Request
polling = request ((str "device_code", str "d1") ∷ [])

abbrev device_body : TokenResponse
device_body = record {
  access_token = str "signed";
  token_type = str "Bearer";
  expires_in = 3600;
  id_token = some (str "signed id");
  scope = str "openid";
  refresh_token = none;
}

abbrev machine : Request
machine = record (request []) {
  client = record client {
    client_secret = some (str "s");
    grant_types = str "client_credentials" ∷ [];
  };
}

abbrev machine_tokens : Response
machine_tokens = tokens (record {
  access_token = str "signed";
  token_type = str "Bearer";
  expires_in = 3600;
  id_token = none;
  scope = [];
  refresh_token = none;
})

machine_answered :
    (handle_client_credentials host machine (str "client_secret_post") polled).0 ≡ ok machine_tokens
unfolding handle_client_credentials jetauth.Action.◌>>=◌ text_beq contains form_value
machine_answered = refl

handle_client_credentials-IsMachine_example :
    ((is_some machine.client.client_secret ≡ true) ⊎ (is_some machine.client.jwks ≡ true))
    × (str "client_secret_post" ≢ str "none")
    × (contains machine.client.grant_types (str "client_credentials") ≡ true)
    × IsMachine host machine machine_tokens
handle_client_credentials-IsMachine_example =
    handle_client_credentials-IsMachine host machine (str "client_secret_post") polled
      machine_tokens machine_answered

abbrev revocation : Form
revocation = (str "token", str "r1") ∷ []

distinct : check_no_duplicates revocation ≡ ok tt
unfolding check_no_duplicates
distinct = refl

has_token : form_value revocation (str "token") ≡ some (str "r1")
unfolding form_value text_beq
has_token = refl

no_hint : form_value revocation (str "token_type_hint") ≡ none
unfolding form_value text_beq
no_hint = refl

public_client : is_unproved client (str "none") ≡ false
unfolding is_unproved
public_client = refl

abbrev stranger : OidcClient
stranger = record client { client_id = str "other" }

public_stranger : is_unproved stranger (str "none") ≡ false
unfolding is_unproved
public_stranger = refl

token_stored :
    get_refresh_token kv wire (hex_sha256 host (str "r1")) offline ≡ ok (some refresh_entry)
unfolding get_refresh_token jetauth.Store.Access.kv_get jetauth.Kv.Memory.get find text_beq
    hex_sha256 jetauth.Token.Types.lower_hex
token_stored = refl

another : str "app" ≢ str "other"
another e = ground arith

handle_revoke-foreign_example :
    handle_revoke kv wire host revocation (ok (stranger, str "none")) offline
    ≡ (ok no_content, offline)
handle_revoke-foreign_example =
    handle_revoke-foreign kv wire host revocation stranger (str "none") (str "r1") offline
      refresh_entry distinct has_token public_stranger token_stored another

revoked_answer :
    (handle_revoke kv wire host revocation (ok (client, str "none")) offline).0 ≡ ok no_content
unfolding handle_revoke check_no_duplicates form_value text_beq jetauth.Action.◌>>=◌
    get_refresh_token jetauth.Store.Access.kv_get jetauth.Kv.Memory.get find hex_sha256
    jetauth.Token.Types.lower_hex jetauth.Store.Refresh.delete_refresh_token
    jetauth.Store.Access.kv_write jetauth.Kv.Memory.write
revoked_answer = refl

no_counter : kv.view polled (str "abuse-rate-limits") (db_key (str "k") 60 100) ≡ none
unfolding find text_beq db_key
no_counter = refl

check_rate-IsWithin_example :
    IsWithin kv wire (db_key (str "k") 60 100) 3 60 (check_rate kv wire 100 (str "k") 3 60 polled).1
check_rate-IsWithin_example =
    check_rate-IsWithin kv wire 100 (str "k") 3 60 polled (omega arith) (inl no_counter)

abbrev claim_input : ClaimInput
claim_input = record {
  issuer = str "https://id";
  user = user;
  client_id = str "app";
  nonce = none;
  auth_time = 90;
  amr = [];
  acr = none;
  scope = str "openid";
  requested_id_token_claims = str "given_name" ∷ [];
  requested_userinfo_claims = [];
  extra_claims = [];
  dpop_jkt = none;
  sid = none;
  now = 100;
  memberships = [];
}

no_email_scope : has_email_scope claim_input ≡ false
unfolding has_email_scope contains jetauth.Prelude.split_whitespace text_beq
no_email_scope = refl

no_profile_scope : has_profile_scope claim_input ≡ false
unfolding has_profile_scope contains jetauth.Prelude.split_whitespace text_beq
no_profile_scope = refl

build_claims-private_email_example :
    Lacks (str "email") (build_claims claim_input).0
    × Lacks (str "email") (build_claims claim_input).1
build_claims-private_email_example = build_claims-private_email claim_input no_email_scope tt
