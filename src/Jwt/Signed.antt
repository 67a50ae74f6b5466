-- ===== src/Jwt/Signed.antt =====
-- What a token that oidc-gateway/src/jwt.rs verifies is signed with.
use jetauth.Prelude.{
  Text, str, text_beq_iff, Bool-cases, Result, ok, err, ok_or, refl, inl, inr, true, Option, none,
  some, List, [], arith, ok_injective, then-eq-ok, ok_or-eq-ok, Among, ◌≡◌, ◌⊎◌, ◌∷◌, ◌++◌, ◌∙◌,
  ◌==◌, text_eq,
}
use jetauth.Action.{map_err-eq-ok}
use jetauth.Json.{Json}
use jetauth.Jwt.{
  Crypto, three_parts, prefixed, str_field, json_part, check_rs256, check_es256, check_signature,
  alg_of, verify_parts, verify_jwt_with_jwk, is_candidate, candidates, try_keys, keys_of,
  try_candidates, verify_with_keys, first_or, verify_jwt_with_jwks,
}

module _ (crypto : Crypto) where
  -- A field of the key, decoded.
  abbrev pub HasField : Json → Text → Text → Type 0
  HasField jwk key value =
      (t : Text) × (str_field jwk key ≡ some t) × (crypto.base64url_decode t ≡ ok value)

  -- A signature of the message that the key verifies, by the scheme that the token names.
  abbrev pub IsSignature : (alg : Text) → Json → (message signature : Text) → Type 0
  IsSignature alg jwk message signature =
      ((alg ≡ str "RS256")
        × ((n : Text) × (e : Text) × HasField jwk (str "n") n
            × HasField jwk (str "e") e
            × (crypto.rsa_verify n e message signature ≡ ok tt)))
      ⊎ ((alg ≡ str "ES256")
          × ((x : Text) × (y : Text) × HasField jwk (str "x") x
              × HasField jwk (str "y") y
              × (crypto.ec_verify (4 ∷ (x ++ y)) message signature ≡ ok tt)))

  check_rs256_sound :
      (jwk : Json) (message signature : Text)
      → check_rs256 crypto jwk message signature ≡ ok tt
      → (n : Text) × (e : Text) × HasField jwk (str "n") n
        × HasField jwk (str "e") e
        × (crypto.rsa_verify n e message signature ≡ ok tt)
  unfolding check_rs256
  check_rs256_sound jwk message signature h =
      let (n_str, fn, h1) =
        then-eq-ok (ok_or (str_field jwk (str "n")) (str "missing n in RSA JWK")) _ h in
      let (e_str, fe, h2) =
        then-eq-ok (ok_or (str_field jwk (str "e")) (str "missing e in RSA JWK")) _ h1 in
      let (n, dn, h3) =
        then-eq-ok (prefixed (str "decode n: ") (crypto.base64url_decode n_str)) _ h2 in
      let (e, de, h4) =
        then-eq-ok (prefixed (str "decode e: ") (crypto.base64url_decode e_str)) _ h3 in
      let (_, _, h5) = then-eq-ok (prefixed (str "invalid RSA key: ") (crypto.rsa_key n e)) _ h4 in
      let (_, _, h6) =
        then-eq-ok (prefixed (str "bad RS256 signature: ") (crypto.rsa_signature signature)) _ h5 in
      (
        n,
        e,
        (n_str, ok_or-eq-ok _ _ fn, map_err-eq-ok (λ e. str "decode n: " ++ e) _ dn),
        (e_str, ok_or-eq-ok _ _ fe, map_err-eq-ok (λ e. str "decode e: " ++ e) _ de),
        map_err-eq-ok (λ e. str "RS256 verification failed: " ++ e) _ h6,
      )

  check_es256_sound :
      (jwk : Json) (message signature : Text)
      → check_es256 crypto jwk message signature ≡ ok tt
      → (x : Text) × (y : Text) × HasField jwk (str "x") x
        × HasField jwk (str "y") y
        × (crypto.ec_verify (4 ∷ (x ++ y)) message signature ≡ ok tt)
  unfolding check_es256
  check_es256_sound jwk message signature h =
      let (x_str, fx, h1) =
        then-eq-ok (ok_or (str_field jwk (str "x")) (str "missing x in EC JWK")) _ h in
      let (y_str, fy, h2) =
        then-eq-ok (ok_or (str_field jwk (str "y")) (str "missing y in EC JWK")) _ h1 in
      let (x, dx, h3) =
        then-eq-ok (prefixed (str "decode x: ") (crypto.base64url_decode x_str)) _ h2 in
      let (y, dy, h4) =
        then-eq-ok (prefixed (str "decode y: ") (crypto.base64url_decode y_str)) _ h3 in
      let (_, _, h5) =
        then-eq-ok (prefixed (str "invalid EC key: ") (crypto.ec_key (4 ∷ (x ++ y)))) _ h4 in
      let (_, _, h6) =
        then-eq-ok (prefixed (str "bad ES256 signature: ") (crypto.ec_signature signature)) _ h5 in
      (
        x,
        y,
        (x_str, ok_or-eq-ok _ _ fx, map_err-eq-ok (λ e. str "decode x: " ++ e) _ dx),
        (y_str, ok_or-eq-ok _ _ fy, map_err-eq-ok (λ e. str "decode y: " ++ e) _ dy),
        map_err-eq-ok (λ e. str "ES256 verification failed: " ++ e) _ h6,
      )

  check_signature-IsSignature :
      (alg : Text) (jwk : Json) (message signature : Text)
      → check_signature crypto alg jwk message signature ≡ ok tt
      → IsSignature alg jwk message signature
  unfolding check_signature
  check_signature-IsSignature alg jwk message signature h = elim (Bool-cases (alg == str "RS256")) [
    | inl rsa ↦
        inl ((text_beq_iff alg _).0 rsa, check_rs256_sound jwk message signature (ground arith))
    | inr other ↦ elim (Bool-cases (alg == str "ES256")) [
      | inl ec ↦
          inr ((text_beq_iff alg _).0 ec, check_es256_sound jwk message signature (ground arith))
      | inr neither ↦ absurd (ground arith)
    ]
  ]

  -- A token in three parts that decode to a header and a payload, with a signature of its first two
  -- parts that the key verifies.
  abbrev pub IsSignedWith : Json → Text → Json × Json → Type 0
  IsSignedWith jwk token (header, payload) =
      (h : Text) × (p : Text) × (s : Text) × (signature : Text) × (three_parts token
        ≡ some (h, p, s))
      × (json_part crypto (str "header") h ≡ ok header)
      × (json_part crypto (str "payload") p ≡ ok payload)
      × IsSignature (alg_of crypto header) jwk (h ++ (b'.' ∷ p)) signature

  verify_parts-IsSigned :
      (jwk : Json) (token : Text) (parts : Option (Text × Text × Text)) (r : Json × Json)
      → three_parts token ≡ parts
      → verify_parts crypto jwk parts ≡ ok r
      → IsSignedWith jwk token r
  verify_parts-IsSigned jwk token none r e h = absurd (ground arith)
  verify_parts-IsSigned jwk token (some (h, p, s)) r e v =
      let (header, dh, v1) = then-eq-ok (json_part crypto (str "header") h) _ v in
      let (payload, dp, v2) = then-eq-ok (json_part crypto (str "payload") p) _ v1 in
      let (signature, _, v3) =
        then-eq-ok (prefixed (str "signature decode: ") (crypto.base64url_decode s)) _ v2 in
      let (_, signed, v4) =
        then-eq-ok (check_signature crypto (alg_of crypto header) jwk (h ++ (b'.' ∷ p)) signature) _
          v3 in
      rw (← ok_injective (header, payload) r v4) (
        h,
        p,
        s,
        signature,
        e,
        dh,
        dp,
        check_signature-IsSignature (alg_of crypto header) jwk (h ++ (b'.' ∷ p)) signature signed,
      )

  -- A token that one key verifies is signed with it, by RS256 or by ES256.
  pub verify_jwt_with_jwk-IsSigned :
      (token : Text) (jwk : Json) (r : Json × Json)
      → verify_jwt_with_jwk crypto token jwk ≡ ok r
      → IsSignedWith jwk token r
  unfolding verify_jwt_with_jwk
  verify_jwt_with_jwk-IsSigned token jwk r h =
      verify_parts-IsSigned jwk token (three_parts token) r refl h

  try_keys-eq-ok :
      (token last_err : Text) (keys : List Json) (r : Json × Json)
      → try_keys crypto token last_err keys ≡ ok r
      → (key : Json) × Among keys key × (verify_jwt_with_jwk crypto token key ≡ ok r)
  unfolding try_keys
  try_keys-eq-ok token last_err [] r h = cc
  try_keys-eq-ok token last_err (key ∷ keys) r h =
      inspect (verify_jwt_with_jwk crypto token key) refl h (λ e. try_keys-eq-ok token e keys r)
    where
      inspect :
          (o : Result (Json × Json))
          → verify_jwt_with_jwk crypto token key ≡ o
          → first_or crypto o (λ e. try_keys crypto token e keys) ≡ ok r
          → ((e : Text)
              → try_keys crypto token e keys ≡ ok r
              → (k : Json) × Among keys k × (verify_jwt_with_jwk crypto token k ≡ ok r))
          → (k : Json) × Among (key ∷ keys) k × (verify_jwt_with_jwk crypto token k ≡ ok r)
      inspect (ok x) e g later = (key, inl refl, e ∙ g)
      inspect (err x) e g later = let (k, m, v) = later x g in (k, inr m, v)

  Among-candidates :
      (header : Json) (keys : List Json) (key : Json)
      → Among (candidates crypto header keys) key
      → Among keys key × (is_candidate crypto header key ≡ true)
  unfolding candidates
  Among-candidates header [] key = λ m. absurd m
  Among-candidates header (k ∷ keys) key = elim (Bool-cases (is_candidate crypto header k)) [
    | inl fits ↦ rw fits (λ m. elim m [
      | inl e ↦ (inl e, rw e fits)
      | inr later ↦ let (among, fit) = Among-candidates header keys key later in (inr among, fit)
    ])
    | inr misfit ↦
        rw misfit
          (λ later. let (among, fit) = Among-candidates header keys key later in (inr among, fit))
  ]

  -- A token that a set of keys verifies is signed with one of them.
  pub verify_jwt_with_jwks-IsSigned :
      (token : Text) (jwks : Json) (r : Json × Json)
      → verify_jwt_with_jwks crypto token jwks ≡ ok r
      → (key : Json) × Among (keys_of crypto jwks) key × IsSignedWith key token r
  unfolding verify_jwt_with_jwks
  verify_jwt_with_jwks-IsSigned token jwks r h = inspect (three_parts token) h
    where
      tried :
          (keys : List Json)
          → try_candidates crypto token keys ≡ ok r
          → (key : Json) × Among keys key × (verify_jwt_with_jwk crypto token key ≡ ok r)
      tried [] g = cc
      tried (key ∷ keys) g =
          try_keys-eq-ok token (str "signature verification failed") (key ∷ keys) r g

      inspect :
          (parts : Option (Text × Text × Text))
          → verify_with_keys crypto token jwks parts ≡ ok r
          → (key : Json) × Among (keys_of crypto jwks) key × IsSignedWith key token r
      inspect none g = cc
      inspect (some (a, b, c)) g =
          let (header, _, g1) = then-eq-ok (json_part crypto (str "header") a) _ g in
          let (key, m, v) = tried (candidates crypto header (keys_of crypto jwks)) g1 in
          let (among, _) = Among-candidates header (keys_of crypto jwks) key m in
          (key, among, verify_jwt_with_jwk-IsSigned token key r v)
