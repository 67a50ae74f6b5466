-- ===== src/Tests/Proofs.antt =====
-- Concrete signed texts: a proof of possession and the assertion of a client, with a toy signature
-- scheme under which a signature of a message is the text "sig".
use jetauth.Prelude.{
  Text, str, text_beq, Result, ok, err, ℕ, refl, some, [], ◌≡◌, ◌∷◌, ◌==◌, if◌then◌else◌, text_eq,
}
use jetauth.Json.{Json, num, text, arr, obj, cons, nil, end, field}
use jetauth.Kv.Memory.{Table}
use jetauth.Store.Types.{OidcClient}
use jetauth.Util.Query.{Form}
use jetauth.Jwt.{Crypto, verify_jwt_with_jwks}
use jetauth.ClientAuth.{AuthenticatedClient, Verifier}
use jetauth.Tests.{Value, client_value, client}

abbrev jwk : Json
jwk = obj (
    field (str "kty") (text (str "EC")) (
      field (str "crv") (text (str "P-256"))
        (field (str "x") (text (str "x")) (field (str "y") (text (str "y")) end))))

abbrev header : Json
header = obj (
    field (str "typ") (text (str "dpop+jwt"))
      (field (str "alg") (text (str "ES256")) (field (str "jwk") jwk end)))

-- The claims of a proof.
abbrev proof_claims : Json
proof_claims = obj (
    field (str "htm") (text (str "POST")) (
      field (str "htu") (text (str "https://id/token"))
        (field (str "iat") (num 100) (field (str "jti") (text (str "j1")) end))))

-- The claims of an assertion of the client.
abbrev assertion_claims : Json
assertion_claims = obj (
    field (str "iss") (text (str "app")) (
      field (str "sub") (text (str "app")) (
        field (str "aud") (text (str "https://id/token"))
          (field (str "exp") (num 200) (field (str "jti") (text (str "j2")) end)))))

-- The parts of a token name the values.
abbrev parsed : Text → Result Json
parsed t =
    if t == str "h"
    then ok header
    else if t == str "p"
    then ok proof_claims
    else if t == str "a"
    then ok assertion_claims
    else err (str "no JSON")

abbrev is_signature : Text → Result (Unit {0})
is_signature t = if t == str "sig" then ok tt else err (str "bad signature")

abbrev crypto : Crypto
crypto = record {
  base64url = λ t. t;
  base64url_decode = λ t. ok t;
  from_slice = parsed;
  sha256 = λ t. 7 ∷ t;
  rsa_key = λ n e. err (str "no RSA");
  rsa_signature = λ t. err (str "no RSA");
  rsa_verify = λ n e message signature. err (str "no RSA");
  ec_key = λ point. ok tt;
  ec_signature = is_signature;
  ec_verify = λ point message signature. is_signature signature;
}

abbrev keys : Json
keys = obj (field (str "keys") (arr (cons jwk nil)) end)

signed : verify_jwt_with_jwks crypto (str "h.a.sig") keys ≡ ok (header, assertion_claims)
unfolding verify_jwt_with_jwks jetauth.Prelude.text_beq jetauth.Json.find_field
signed = refl

abbrev proof_now : ℕ → ℕ
proof_now place = 120

abbrev nothing_stored : Table Value
nothing_stored = []

abbrev jkt : Text
jkt = 7 ∷ str "{\"crv\":\"P-256\",\"kty\":\"EC\",\"x\":\"x\",\"y\":\"y\"}"

abbrev pub verifier : Verifier
verifier = record {
  crypto = crypto;
  base64_decode = λ t. some t;
  hmac_client_secret = λ t. b'#' ∷ t;
}

abbrev pub keyed_client : OidcClient
keyed_client = record client { jwks = some keys }

abbrev clients_stored : Table Value
clients_stored = (str "clients:client:app", (client_value keyed_client, 1)) ∷ []

abbrev assertion_form : Form
assertion_form =
    (str "client_assertion_type", str "urn:ietf:params:oauth:client-assertion-type:jwt-bearer")
    ∷ (str "client_assertion", str "h.a.sig")
    ∷ []

abbrev by_keys : AuthenticatedClient
by_keys = record { client = keyed_client; auth_method = str "private_key_jwt" }
