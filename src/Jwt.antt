-- ===== src/Jwt.antt =====
-- The verification of JSON web tokens with published keys: `verify_jwt_with_jwk`,
-- `verify_jwt_with_jwks` and `compute_jwk_thumbprint` of oidc-gateway/src/jwt.rs.
pub mod Signed
use jetauth.Prelude.{
  Text, str, Result, ok, err, ok_or, Bool, true, false, Option, none, some, List, [], splitn2,
  or_empty, ◌&&◌, ◌∷◌, ◌++◌, ◌==◌, if◌then◌else◌, ◌>>=◌, ◌>>◌, text_eq,
}
use jetauth.Action.{on_error}
use jetauth.Json.{Json, get, as_str, as_array}

-- What the crates for base64url, JSON, SHA-256 and the two signature schemes do.
pub record Crypto : Type 0 where
  pub base64url : Text → Text
  pub base64url_decode : Text → Result Text
  pub from_slice : Text → Result Json
  pub sha256 : Text → Text
  -- RSA with PKCS #1 v1.5, by modulus and exponent.
  pub rsa_key : (n e : Text) → Result (Unit {0})
  pub rsa_signature : Text → Result (Unit {0})
  pub rsa_verify : (n e message signature : Text) → Result (Unit {0})
  -- ECDSA on P-256, by the uncompressed point.
  pub ec_key : (point : Text) → Result (Unit {0})
  pub ec_signature : Text → Result (Unit {0})
  pub ec_verify : (point message signature : Text) → Result (Unit {0})

abbrev with_third : Text → Text × Option Text → Option (Text × Text × Text)
with_third a (b, none) = none
with_third a (b, some c) = some (a, b, c)

abbrev with_rest : Text × Option Text → Option (Text × Text × Text)
with_rest (a, none) = none
with_rest (a, some rest) = with_third a (splitn2 b'.' rest)

-- `token.splitn(3, '.')`, where it has three parts.
abbrev pub three_parts : Text → Option (Text × Text × Text)
three_parts token = with_rest (splitn2 b'.' token)

abbrev pub prefixed : Text → {A : Type 0} → Result A → Result A
prefixed what r = on_error (λ e. what ++ e) r

-- `v.get(key).and_then(|v| v.as_str())`
abbrev pub text_of : Option Json → Option Text
text_of none = none
text_of (some v) = as_str v

abbrev pub str_field : Json → Text → Option Text
str_field v key = text_of (get v key)

module _ (crypto : Crypto) where
  -- A part of a token as JSON.
  abbrev pub json_part : Text → Text → Result Json
  json_part what part = do
    bytes ← prefixed (what ++ str " decode: ") (crypto.base64url_decode part)
    prefixed (what ++ str " parse: ") (crypto.from_slice bytes)

  unfoldable pub check_rs256 : Json → (message signature : Text) → Result (Unit {0})
  check_rs256 jwk message signature = do
    n_str ← ok_or (str_field jwk (str "n")) (str "missing n in RSA JWK")
    e_str ← ok_or (str_field jwk (str "e")) (str "missing e in RSA JWK")
    n ← prefixed (str "decode n: ") (crypto.base64url_decode n_str)
    e ← prefixed (str "decode e: ") (crypto.base64url_decode e_str)
    prefixed (str "invalid RSA key: ") (crypto.rsa_key n e)
    prefixed (str "bad RS256 signature: ") (crypto.rsa_signature signature)
    prefixed (str "RS256 verification failed: ") (crypto.rsa_verify n e message signature)

  unfoldable pub check_es256 : Json → (message signature : Text) → Result (Unit {0})
  check_es256 jwk message signature = do
    x_str ← ok_or (str_field jwk (str "x")) (str "missing x in EC JWK")
    y_str ← ok_or (str_field jwk (str "y")) (str "missing y in EC JWK")
    x ← prefixed (str "decode x: ") (crypto.base64url_decode x_str)
    y ← prefixed (str "decode y: ") (crypto.base64url_decode y_str)
    prefixed (str "invalid EC key: ") (crypto.ec_key (4 ∷ (x ++ y)))
    prefixed (str "bad ES256 signature: ") (crypto.ec_signature signature)
    prefixed (str "ES256 verification failed: ") (crypto.ec_verify (4 ∷ (x ++ y)) message signature)

  unfoldable pub check_signature :
      (alg : Text) → Json → (message signature : Text) → Result (Unit {0})
  unfolding check_rs256 check_es256
  check_signature alg jwk message signature =
      if alg == str "RS256"
      then check_rs256 jwk message signature
      else if alg == str "ES256"
      then check_es256 jwk message signature
      else err (str "unsupported signature algorithm: " ++ alg)

  abbrev pub alg_of : Json → Text
  alg_of header = or_empty (str_field header (str "alg"))

  abbrev pub verify_parts : Json → Option (Text × Text × Text) → Result (Json × Json)
  verify_parts jwk none = err (str "invalid JWT format")
  verify_parts jwk (some (h_b64, p_b64, s_b64)) = do
    header ← json_part (str "header") h_b64
    payload ← json_part (str "payload") p_b64
    signature ← prefixed (str "signature decode: ") (crypto.base64url_decode s_b64)
    check_signature (alg_of header) jwk (h_b64 ++ (b'.' ∷ p_b64)) signature
    ok (header, payload)

  -- The header and the payload of a token that the key verifies.
  unfoldable pub verify_jwt_with_jwk : (token : Text) → (jwk : Json) → Result (Json × Json)
  unfolding check_signature splitn2
  verify_jwt_with_jwk token jwk = verify_parts jwk (three_parts token)

  abbrev is_some : {A : Type 0} → Option A → Bool
  is_some none = false
  is_some (some a) = true

  abbrev keys_or : Json → Option (List Json) → List Json
  keys_or jwks (some keys) = keys
  keys_or jwks none = if is_some (get jwks (str "kty")) then jwks ∷ [] else []

  abbrev array_of : Option Json → Option (List Json)
  array_of none = none
  array_of (some v) = as_array v

  abbrev pub keys_of : Json → List Json
  keys_of jwks = keys_or jwks (array_of (get jwks (str "keys")))

  abbrev expected_kty : Text → Option Text
  expected_kty alg =
      if alg == str "RS256"
      then some (str "RSA")
      else if alg == str "ES256"
      then some (str "EC")
      else none

  -- A filter that asks for nothing, or for a field with this text.
  abbrev pub agrees : Option Text → Option Text → Bool
  agrees none found = true
  agrees (some wanted) none = false
  agrees (some wanted) (some found) = found == wanted

  unfoldable pub is_candidate : (header key : Json) → Bool
  is_candidate header key =
      agrees (expected_kty (alg_of header)) (str_field key (str "kty"))
      && agrees (str_field header (str "kid")) (str_field key (str "kid"))

  unfoldable pub candidates : (header : Json) → List Json → List Json
  unfolding is_candidate
  candidates header [] = []
  candidates header (key ∷ keys) =
      let rest = candidates header keys in if is_candidate header key then key ∷ rest else rest

  abbrev pub first_or : Result (Json × Json) → (Text → Result (Json × Json)) → Result (Json × Json)
  first_or (ok r) later = ok r
  first_or (err e) later = later e

  -- The loop over the candidates, with the last error.
  unfoldable pub try_keys : (token last_err : Text) → List Json → Result (Json × Json)
  unfolding verify_jwt_with_jwk
  try_keys token last_err [] = err last_err
  try_keys token last_err (key ∷ keys) =
      first_or (verify_jwt_with_jwk token key) (λ e. try_keys token e keys)

  abbrev pub try_candidates : Text → List Json → Result (Json × Json)
  try_candidates token [] = err (str "no matching public key found in JWKS")
  try_candidates token (key ∷ keys) =
      try_keys token (str "signature verification failed") (key ∷ keys)

  abbrev pub verify_with_keys : Text → Json → Option (Text × Text × Text) → Result (Json × Json)
  verify_with_keys token jwks none = err (str "invalid JWT format")
  verify_with_keys token jwks (some (h_b64, _, _)) = do
    header ← json_part (str "header") h_b64
    try_candidates token (candidates header (keys_of jwks))

  unfoldable pub verify_jwt_with_jwks : (token : Text) → (jwks : Json) → Result (Json × Json)
  unfolding try_keys candidates splitn2
  verify_jwt_with_jwks token jwks = verify_with_keys token jwks (three_parts token)

  -- The members in the order of RFC 7638.
  unfoldable pub canonical_jwk : Json → (kty : Text) → Result Text
  canonical_jwk jwk kty =
      if kty == str "RSA"
      then (do
        e ← ok_or (str_field jwk (str "e")) (str "missing e")
        n ← ok_or (str_field jwk (str "n")) (str "missing n")
        ok (str "{\"e\":\"" ++ (e ++ (str "\",\"kty\":\"RSA\",\"n\":\"" ++ (n ++ str "\"}")))))
      else if kty == str "EC"
      then (do
        crv ← ok_or (str_field jwk (str "crv")) (str "missing crv")
        x ← ok_or (str_field jwk (str "x")) (str "missing x")
        y ← ok_or (str_field jwk (str "y")) (str "missing y")
        ok (
            str "{\"crv\":\""
            ++ (crv
                ++ (str "\",\"kty\":\"EC\",\"x\":\""
                    ++ (x ++ (str "\",\"y\":\"" ++ (y ++ str "\"}")))))))
      else err (str "unsupported kty for thumbprint: " ++ kty)

  unfoldable pub compute_jwk_thumbprint : Json → Result Text
  unfolding canonical_jwk
  compute_jwk_thumbprint jwk = do
    kty ← ok_or (str_field jwk (str "kty")) (str "missing kty")
    canonical ← canonical_jwk jwk kty
    ok (crypto.base64url (crypto.sha256 canonical))
