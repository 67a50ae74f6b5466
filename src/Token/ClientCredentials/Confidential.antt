-- ===== src/Token/ClientCredentials/Confidential.antt =====
-- Who gets a token of `handle_client_credentials` of oidc-gateway/src/token.rs.
use jetauth.Prelude.{
  Text, str, text_beq_iff, contains, ok, refl, sym, Bool, true, false, not, none, arith,
  ok_injective, ◌≡◌, ◌≢◌, ◌⊎◌, ◌&&◌, ◌||◌, text_eq,
}
use jetauth.Action.{bind-eq-ok, tested-eq-ok}
use jetauth.Token.Types.{Response, TokenResponse, tokens, Host, Request}
use jetauth.Token.Issue.{token_type}
use jetauth.Token.ClientCredentials.{
  is_some, is_confidential, machine_response, handle_client_credentials,
}

module _ {State : Type 0} (host : Host State) where
  -- A machine's token: no id token and no refresh token beside it.
  abbrev pub IsMachine : Request → Response → Type 0
  IsMachine req response =
      (body : TokenResponse) × (response ≡ tokens body)
      × (body.id_token ≡ none)
      × (body.refresh_token ≡ none)
      × (body.token_type ≡ token_type req.dpop_jkt)

  machine_response-IsMachine :
      (req : Request) (access_token scope : Text) (response : Response)
      → ok (machine_response req access_token scope) ≡ ok response
      → IsMachine req response
  unfolding machine_response
  machine_response-IsMachine req access_token scope response h =
      (_, sym (ok_injective _ _ h), refl, refl, refl)

  confidential_lem :
      (secret jwks none_method : Bool)
      → ((secret || jwks) && not none_method) ≡ true
      → ((secret ≡ true) ⊎ (jwks ≡ true)) × (none_method ≡ false)
  confidential_lem secret jwks none_method h = ground arith

  -- A client that gets a token has a secret or keys, has authenticated itself, and may use the
  -- grant; the token comes without an id token and without a refresh token.
  pub handle_client_credentials-IsMachine :
      (req : Request) (auth_method : Text) (s : State) (response : Response)
      → (handle_client_credentials host req auth_method s).0 ≡ ok response
      → ((is_some req.client.client_secret ≡ true) ⊎ (is_some req.client.jwks ≡ true))
        × (auth_method ≢ str "none")
        × (contains req.client.grant_types (str "client_credentials") ≡ true)
        × IsMachine req response
  unfolding handle_client_credentials is_confidential
  handle_client_credentials-IsMachine req auth_method s response h =
      let (_, confidential, h1) = bind-eq-ok _ _ s h in
      let (_, may, h2) = bind-eq-ok _ _ s h1 in
      let (access_token, _, h3) = bind-eq-ok _ _ s h2 in
      let (credentials, used) = confidential_lem _ _ _ (tested-eq-ok _ _ confidential) in
      (
        credentials,
        (λ e. ground (arith, (text_beq_iff auth_method (str "none")).1 e)),
        tested-eq-ok _ _ may,
        machine_response-IsMachine req access_token _ response h3,
      )
