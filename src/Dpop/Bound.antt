-- ===== src/Dpop/Bound.antt =====
-- What a proof that `validate_dpop_proof` of oidc-gateway/src/dpop.rs accepts is bound to.
use jetauth.Prelude.{Text, str, ℕ, true, Option, some, ◌+◌, ◌≤◌, ◌≡◌, text_eq}
use jetauth.Kv.{Kv}
use jetauth.Json.{Json}
use jetauth.Store.Wire.{Wire}
use jetauth.Jwt.{Crypto, str_field}
use jetauth.ClientAuth.{u64_field}
use jetauth.Dpop.Uri.{eq_ignore_ascii_case, uri_matches}
use jetauth.Dpop.{compute_ath}

module _ {Payload : Type 0} (kv : Kv Payload) (wire : Wire Payload) (crypto : Crypto)
    (now : ℕ → ℕ) where
  -- The claims say this method and address, a time within five minutes of the clock, and the hash of
  -- the access token, if one is presented.
  abbrev pub Claims : (method uri : Text) → Option Text → Json → (jti : Text) → Type 0
  Claims method uri access_token payload jti =
      (htm : Text) × (htu : Text) × (iat : ℕ) × (str_field payload (str "htm") ≡ some htm)
      × (eq_ignore_ascii_case htm method ≡ true)
      × (str_field payload (str "htu") ≡ some htu)
      × (uri_matches htu uri ≡ true)
      × (u64_field payload (str "iat") ≡ some iat)
      × ((iat ≤ now 0 + 300) × (now 0 ≤ iat + 300))
      × ((token : Text)
          → access_token ≡ some token
          → str_field payload (str "ath") ≡ some (compute_ath crypto token))
      × (str_field payload (str "jti") ≡ some jti)
