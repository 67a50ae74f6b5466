-- ===== src/ClientAuth/Proved.antt =====
-- What a client that `authenticate_client` of oidc-gateway/src/client_auth.rs admits has proved.
use jetauth.Prelude.{Text, str, ok, ℕ, none, some, Among, ◌≡◌, ◌⊎◌, text_eq}
use jetauth.Kv.{Kv}
use jetauth.Json.{Json}
use jetauth.Store.Wire.{Wire}
use jetauth.Store.OneTime.{check_and_record_jti, ttl_jti}
use jetauth.Jwt.{keys_of}
use jetauth.Jwt.Signed.{IsSignedWith}
use jetauth.ClientAuth.{AuthenticatedClient, Verifier, check_claims}

module _ {Payload : Type 0} (kv : Kv Payload) (wire : Wire Payload) (verifier : Verifier)
    (now : ℕ → ℕ) where
  -- By a secret: the client is stored with its hash.
  abbrev BySecret : AuthenticatedClient → Type 0
  BySecret auth =
      ((auth.auth_method ≡ str "client_secret_basic")
        ⊎ (auth.auth_method ≡ str "client_secret_post"))
      × ((secret : Text) × (auth.client.client_secret ≡ some (verifier.hmac_client_secret secret)))

  -- By an assertion: one of the client's keys has signed it, its claims are those for this endpoint,
  -- and its identifier could be recorded.
  abbrev ByAssertion : (issuer endpoint : Text) → AuthenticatedClient → Type 0
  ByAssertion issuer endpoint auth =
      (auth.auth_method ≡ str "private_key_jwt")
      × ((sub : Text) × (assertion : Text) × (jwks : Json) × (key : Json) × (r : Json × Json)
          × (jti : Text) × (s : kv.State) × (auth.client.jwks ≡ some jwks)
          × Among (keys_of verifier.crypto jwks) key
          × IsSignedWith verifier.crypto key assertion r
          × (check_claims issuer endpoint (now 0) sub r.1 ≡ ok jti)
          × ((check_and_record_jti kv wire (now 1) jti ttl_jti s).0 ≡ ok tt))

  -- As a public client: it has neither a secret nor keys.
  abbrev AsPublic : AuthenticatedClient → Type 0
  AsPublic auth =
      (auth.auth_method ≡ str "none")
      × (auth.client.client_secret ≡ none)
      × (auth.client.jwks ≡ none)

  abbrev pub IsProved : (issuer endpoint : Text) → AuthenticatedClient → Type 0
  IsProved issuer endpoint auth = BySecret auth ⊎ (ByAssertion issuer endpoint auth ⊎ AsPublic auth)
