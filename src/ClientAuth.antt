-- ===== src/ClientAuth.antt =====
-- The authentication of clients: oidc-gateway/src/client_auth.rs.
pub mod Secret
pub mod Methods
pub mod Proved
use jetauth.Prelude.{
  Text, str, starts_with, contains, ltb, Result, ok, err, ok_or, ℕ, Bool, true, false, not, Option,
  none, some, List, [], strip_prefix, splitn2, ◌+◌, ◌||◌, ◌∷◌, ◌++◌, ◌==◌, if◌then◌else◌, ◌>>=◌,
  text_eq, ◌>>◌,
}
use jetauth.Action.{on_error}
use jetauth.Json.{Json, text, arr, get, as_str, as_u64, items}
use jetauth.Store.Types.{OidcClient}
use jetauth.Util.Utf8.{from_utf8_lossy}
use jetauth.Util.Percent.{url_decode}
use jetauth.Token.ClientCredentials.{is_some}
use jetauth.Jwt.{Crypto, prefixed, three_parts, str_field}

pub record AuthenticatedClient : Type 0 where
  pub client : OidcClient
  pub auth_method : Text

-- What the authentication uses of other crates, and the peppered hash of secrets.
pub record Verifier : Type 0 where
  pub crypto : Crypto
  pub base64_decode : Text → Option Text
  pub hmac_client_secret : Text → Text

abbrev pub or_else : {A : Type 0} → Option A → Option A → Option A
or_else (some a) o = some a
or_else none o = o

-- `String::from_utf8(bytes).ok()`
abbrev from_utf8 : Text → Option Text
from_utf8 bytes = if from_utf8_lossy bytes == bytes then some bytes else none

abbrev decoded_pair : Text × Option Text → Option (Text × Text)
decoded_pair (client_id, none) = none
decoded_pair (client_id, some client_secret) = some (url_decode client_id, url_decode client_secret)

abbrev pair_of : Option Text → Option (Text × Text)
pair_of none = none
pair_of (some t) = decoded_pair (splitn2 b':' t)

abbrev text_of_bytes : Option Text → Option Text
text_of_bytes none = none
text_of_bytes (some bytes) = from_utf8 bytes

abbrev decode_with : (Text → Option Text) → Option Text → Option Text
decode_with decode none = none
decode_with decode (some encoded) = decode encoded

abbrev without_scheme : Option Text → Option Text
without_scheme none = none
without_scheme (some header) =
    or_else (strip_prefix (str "Basic ") header) (strip_prefix (str "basic ") header)

-- `parse_basic_auth`: the identifier and the secret of a `Basic` header.
unfoldable pub parse_basic_auth :
    (base64_decode : Text → Option Text) → Option Text → Option (Text × Text)
unfolding from_utf8_lossy url_decode splitn2 strip_prefix
parse_basic_auth base64_decode auth_header =
    pair_of (text_of_bytes (decode_with base64_decode (without_scheme auth_header)))

abbrev must_use : OidcClient → Text → Text
must_use client expected =
    str "client '"
    ++ (client.client_id
        ++ (str "' must use registered token_endpoint_auth_method '" ++ (expected ++ str "'")))

abbrev pub refuse_secret : OidcClient → Option Text → Result (Unit {0})
refuse_secret client none = err (str "public client cannot provide client_secret")
refuse_secret client (some expected) = err (must_use client expected)

abbrev pub public_method : OidcClient → Option Text → Result (Unit {0})
public_method client none = ok tt
public_method client (some expected) =
    if expected == str "none" then ok tt else err (must_use client expected)

-- A client without a secret: no secret is presented, and it is registered for no other method.
abbrev pub check_public : OidcClient → Option Text → Result (Unit {0})
check_public client (some provided) = refuse_secret client client.token_endpoint_auth_method
check_public client none = do
  public_method client client.token_endpoint_auth_method
  if is_some client.jwks then err (must_use client (str "private_key_jwt")) else ok tt

abbrev pub check_hash :
    (hmac : Text → Text) → (stored_hash : Text) → Option Text → Result (Unit {0})
check_hash hmac stored_hash (some provided) =
    if hmac provided == stored_hash then ok tt else err (str "invalid client_secret")
check_hash hmac stored_hash none = err (str "client_secret required for confidential clients")

abbrev pub by_secret :
    (hmac : Text → Text) → OidcClient → (stored client_secret : Option Text) → Result (Unit {0})
by_secret hmac client (some stored_hash) client_secret = check_hash hmac stored_hash client_secret
by_secret hmac client none client_secret = check_public client client_secret

unfoldable pub verify_secret :
    (hmac_client_secret : Text → Text) → OidcClient → Option Text → Result (Unit {0})
verify_secret hmac client client_secret = by_secret hmac client client.client_secret client_secret

-- The identifier in the form, where there is one, is this one.
abbrev pub same_id : Option Text → Text → Text → Result (Unit {0})
same_id none id e = ok tt
same_id (some fid) id e = if fid == id then ok tt else err e

abbrev pub u64_field : Json → Text → Option ℕ
u64_field v key = elim (get v key) [ none ↦ none | some w ↦ as_u64 w ]

-- The subject that an assertion names, before its signature is verified.
unfoldable pub unverified_sub : Crypto → (assertion : Text) → Result Text
unfolding splitn2
unverified_sub crypto assertion = do
  parts ← ok_or (three_parts assertion) (str "invalid client_assertion JWT format")
  p_bytes ← prefixed (str "decode client_assertion payload: ") (crypto.base64url_decode (parts.1))
  payload ← prefixed (str "parse client_assertion payload: ") (crypto.from_slice p_bytes)
  ok_or (str_field payload (str "sub")) (str "missing sub claim in client_assertion")

abbrev clean_endpoint : Text → Text
clean_endpoint endpoint = if starts_with endpoint (str "/") then endpoint else b'/' ∷ endpoint

-- The audiences: the issuer, and the endpoint at it; for the token endpoint the latter is listed
-- twice.
unfoldable pub valid_audiences : (issuer endpoint : Text) → List Text
unfolding starts_with
valid_audiences issuer endpoint =
    let rest =
      if clean_endpoint endpoint == str "/token" then (issuer ++ str "/token") ∷ [] else [] in
    issuer ∷ (issuer ++ clean_endpoint endpoint) ∷ rest

abbrev is_audience : List Text → Option Text → Bool
is_audience audiences none = false
is_audience audiences (some t) = contains audiences t

unfoldable pub any_audience : List Text → List Json → Bool
any_audience audiences [] = false
any_audience audiences (v ∷ vs) = is_audience audiences (as_str v) || any_audience audiences vs

unfoldable pub aud_ok : List Text → Option Json → Bool
unfolding any_audience
aud_ok audiences (some (text t)) = contains audiences t
aud_ok audiences (some (arr vs)) = any_audience audiences (items vs)
aud_ok audiences _ = false

abbrev nbf_ok : ℕ → Option ℕ → Bool
nbf_ok now none = true
nbf_ok now (some nbf) = not (ltb (now + 60) nbf)

abbrev pub tested : Bool → Text → Result (Unit {0})
tested test e = if test then ok tt else err e

-- The claims of RFC 7523, and the identifier of the assertion.
unfoldable pub check_claims :
    (issuer endpoint : Text) → (now : ℕ) → (sub : Text) → Json → Result Text
unfolding valid_audiences aud_ok
check_claims issuer endpoint now sub payload = do
  iss ← ok_or (str_field payload (str "iss")) (str "missing iss claim")
  tested (iss == sub) (str "invalid iss claim: expected " ++ (sub ++ (str ", got " ++ iss)))
  tested (aud_ok (valid_audiences issuer endpoint) (get payload (str "aud")))
      (str "invalid aud claim in client_assertion")
  exp ← ok_or (u64_field payload (str "exp")) (str "missing exp claim")
  tested (not (ltb exp now)) (str "client_assertion has expired")
  tested (not (ltb (now + 600) exp))
      (str "client_assertion validity period is too long (max 10 minutes)")
  tested (nbf_ok now (u64_field payload (str "nbf")))
      (str "client_assertion not yet valid (nbf in future)")
  ok_or (str_field payload (str "jti")) (str "missing jti claim")
