-- ===== src/Dpop.antt =====
-- Proofs of possession (RFC 9449): oidc-gateway/src/dpop.rs.
pub mod Uri
pub mod Bound
use jetauth.Prelude.{
  Text, str, is_empty, ltb, Result, ok, err, ok_or, ℕ, Bool, true, not, Option, none, some, splitn2,
  or_empty, ◌+◌, ◌&&◌, ◌||◌, ◌∷◌, ◌++◌, ◌==◌, if◌then◌else◌, text_eq,
}
use jetauth.Kv.{Kv}
use jetauth.Action.{Action, pure, guard, lift, map_err, ◌>>=◌, ◌>>◌}
use jetauth.Json.{Json, get}
use jetauth.Store.Wire.{Wire}
use jetauth.Store.OneTime.{check_and_record_jti, ttl_jti}
use jetauth.Token.ClientCredentials.{is_some}
use jetauth.Jwt.{
  Crypto, three_parts, prefixed, str_field, alg_of, verify_jwt_with_jwk, compute_jwk_thumbprint,
}
use jetauth.ClientAuth.{u64_field}
use jetauth.Dpop.Uri.{eq_ignore_ascii_case, uri_matches}

unfoldable pub compute_ath : Crypto → (access_token : Text) → Text
compute_ath crypto access_token = crypto.base64url (crypto.sha256 access_token)

abbrev pub is_private : Json → Bool
is_private jwk =
    is_some (get jwk (str "d")) || is_some (get jwk (str "p")) || is_some (get jwk (str "q"))

abbrev not_expired : ℕ → Option ℕ → Bool
not_expired now none = true
not_expired now (some exp) = not (ltb exp now)

abbrev pub same_ath : (expected_ath : Text) → Option Text → Result (Unit {0})
same_ath expected_ath none = err (str "missing ath claim in DPoP proof")
same_ath expected_ath (some ath) =
    if ath == expected_ath
    then ok tt
    else err (str "DPoP ath hash does not match presented access token")

-- The hash of the access token, where one is presented.
abbrev pub check_ath : Crypto → Json → Option Text → Result (Unit {0})
check_ath crypto payload none = ok tt
check_ath crypto payload (some token) =
    same_ath (compute_ath crypto token) (str_field payload (str "ath"))

abbrev pub within_window : (now iat : ℕ) → Bool
within_window now iat = not (ltb (now + 300) iat) && not (ltb (iat + 300) now)

-- `now` is what the clock gives at the two places that read it.
module _ {Payload : Type 0} (kv : Kv Payload) (wire : Wire Payload) (crypto : Crypto)
    (now : ℕ → ℕ) where
  -- The header of the proof.
  unfoldable pub read_header : (dpop_proof : Text) → Result Json
  unfolding splitn2
  read_header dpop_proof = elim (three_parts dpop_proof) [
    | none ↦ err (str "invalid DPoP proof format")
    | some parts ↦ elim (prefixed (str "decode DPoP header: ") (crypto.base64url_decode parts.0)) [
      | err e ↦ err e
      | ok h_bytes ↦ prefixed (str "parse DPoP header: ") (crypto.from_slice h_bytes)
    ]
  ]

  -- The public key of the header.
  unfoldable pub embedded_key : (header : Json) → Action kv.State Json
  unfolding eq_ignore_ascii_case
  embedded_key header = do
    guard (eq_ignore_ascii_case (or_empty (str_field header (str "typ"))) (str "dpop+jwt")) (
        str "invalid DPoP typ: expected 'dpop+jwt', got '"
        ++ (or_empty (str_field header (str "typ")) ++ str "'"))
    guard (alg_of crypto header == str "RS256" || alg_of crypto header == str "ES256")
        (str "unsupported DPoP algorithm: " ++ alg_of crypto header)
    jwk ← lift (ok_or (get header (str "jwk")) (str "missing jwk in DPoP header"))
    guard (not (is_private jwk)) (str "DPoP jwk must not contain private key parameters")
    pure jwk

  abbrev htm_mismatch : Text → Text → Text
  htm_mismatch expected htm =
      str "DPoP htm mismatch: expected " ++ (expected ++ (str ", got " ++ htm))

  abbrev htu_mismatch : Text → Text → Text
  htu_mismatch expected htu =
      str "DPoP htu mismatch: expected " ++ (expected ++ (str ", got " ++ htu))

  -- The claims of the proof, and its identifier.
  unfoldable pub check_proof :
      (expected_method expected_uri : Text) (access_token : Option Text)
      → Json
      → Action kv.State Text
  unfolding eq_ignore_ascii_case uri_matches compute_ath
  check_proof expected_method expected_uri access_token payload = do
    htm ← lift (ok_or (str_field payload (str "htm")) (str "missing htm claim in DPoP proof"))
    guard (eq_ignore_ascii_case htm expected_method) (htm_mismatch expected_method htm)
    htu ← lift (ok_or (str_field payload (str "htu")) (str "missing htu claim in DPoP proof"))
    guard (uri_matches htu expected_uri) (htu_mismatch expected_uri htu)
    iat ← lift (ok_or (u64_field payload (str "iat")) (str "missing iat claim in DPoP proof"))
    guard (within_window (now 0) iat)
        (str "DPoP proof iat is outside the acceptable " ++ (0xc2 ∷ 0xb1 ∷ str "300s time window"))
    guard (not_expired (now 0) (u64_field payload (str "exp"))) (str "DPoP proof has expired")
    lift (check_ath crypto payload access_token)
    jti ← lift (ok_or (str_field payload (str "jti")) (str "missing jti claim in DPoP proof"))
    guard (not (is_empty jti)) (str "empty jti claim in DPoP proof")
    pure jti

  unfoldable pub validate_dpop_proof :
      (dpop_proof expected_method expected_uri : Text) (access_token : Option Text)
      → Action kv.State Text
  unfolding read_header embedded_key check_proof verify_jwt_with_jwk check_and_record_jti
      compute_jwk_thumbprint
  validate_dpop_proof dpop_proof expected_method expected_uri access_token = do
    header ← lift (read_header dpop_proof)
    jwk ← embedded_key header
    verified ← lift (
        prefixed (str "DPoP proof signature verification failed: ")
          (verify_jwt_with_jwk crypto dpop_proof jwk))
    jti ← check_proof expected_method expected_uri access_token verified.1
    map_err (λ e. str "DPoP jti replay: " ++ e) (check_and_record_jti kv wire (now 1) jti ttl_jti)
    lift (compute_jwk_thumbprint crypto jwk)
