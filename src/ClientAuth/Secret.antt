-- ===== src/ClientAuth/Secret.antt =====
-- Which secrets `verify_secret` of oidc-gateway/src/client_auth.rs accepts for which clients.
use jetauth.Prelude.{
  Text, text_beq_iff, ok, refl, false, Option, none, some, arith, then-eq-ok, ◌≡◌, text_eq,
}
use jetauth.Store.Types.{OidcClient}
use jetauth.Token.ClientCredentials.{is_some}
use jetauth.ClientAuth.{verify_secret, by_secret, refuse_secret, public_method}

module _ (hmac : Text → Text) where
  by_secret-some :
      (client : OidcClient) (stored : Option Text) (secret : Text)
      → by_secret hmac client stored (some secret) ≡ ok tt
      → stored ≡ some (hmac secret)
  by_secret-some client (some hash) secret h = ground (arith, text_beq_iff (hmac secret) hash)
  by_secret-some client none secret h = refused client.token_endpoint_auth_method h
    where
      refused :
          (o : Option Text)
          → refuse_secret client o ≡ ok tt
          → ◌≡◌ {A = Option Text} none (some (hmac secret))
      refused none e = cc
      refused (some x) e = cc

  by_secret-none :
      (client : OidcClient) (stored : Option Text)
      → by_secret hmac client stored none ≡ ok tt
      → (stored ≡ none) × (is_some client.jwks ≡ false)
  by_secret-none client (some hash) h = cc
  by_secret-none client none h =
      let (_, _, rest) = then-eq-ok (public_method client client.token_endpoint_auth_method) _ h in
      (refl, ground arith)

  is_some-false : {A : Type 0} (o : Option A) → is_some o ≡ false → o ≡ none
  is_some-false none h = refl
  is_some-false (some a) h = cc

  -- A secret that is accepted is the one whose hash the client is stored with.
  pub verify_secret-some :
      (client : OidcClient) (secret : Text)
      → verify_secret hmac client (some secret) ≡ ok tt
      → client.client_secret ≡ some (hmac secret)
  unfolding verify_secret
  verify_secret-some client secret h = by_secret-some client client.client_secret secret h

  -- A client that is accepted without a secret has neither a secret nor keys.
  pub verify_secret-none :
      (client : OidcClient)
      → verify_secret hmac client none ≡ ok tt
      → (client.client_secret ≡ none) × (client.jwks ≡ none)
  unfolding verify_secret
  verify_secret-none client h =
      let (no_secret, no_keys) = by_secret-none client client.client_secret h in
      (no_secret, is_some-false client.jwks no_keys)
