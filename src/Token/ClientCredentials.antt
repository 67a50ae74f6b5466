-- ===== src/Token/ClientCredentials.antt =====
-- The client credentials grant: `handle_client_credentials` of oidc-gateway/src/token.rs.
pub mod Confidential
use jetauth.Prelude.{
  Text, str, contains, Bool, true, false, not, Option, none, some, or_empty, ◌+◌, ◌-◌, ◌&&◌, ◌||◌,
  ◌==◌, text_eq,
}
use jetauth.Action.{Action, pure, guard, reads, ◌>>=◌, ◌>>◌}
use jetauth.Json.{Json, num, text, obj, Fields, end, field, set_field}
use jetauth.Util.Query.{form_value}
use jetauth.Store.Types.{OidcClient}
use jetauth.Token.Types.{Response, tokens, Host, Request}
use jetauth.Token.Claims.{set_confirmation}
use jetauth.Token.Issue.{token_type}
use jetauth.Token.Code.{not_authorized}

-- `o.is_some()`
abbrev pub is_some {ℓ} : {A : Type ℓ} → Option A → Bool
is_some none = false
is_some (some a) = true

-- A client that has authenticated itself with a secret or a key.
unfoldable pub is_confidential : OidcClient → (auth_method : Text) → Bool
is_confidential client auth_method =
    (is_some client.client_secret || is_some client.jwks) && not (auth_method == str "none")

unfoldable pub machine_claims : Request → (scope : Text) → Fields
machine_claims req scope = set_confirmation req.dpop_jkt (
    field (str "iss") (text req.issuer) (
      field (str "sub") (text req.client.client_id) (
        field (str "aud") (text req.client.client_id) (
          field (str "exp") (num (req.now 0 + 3600)) (
            field (str "nbf") (num (req.now 0 - 30)) (
              field (str "iat") (num (req.now 0)) (
                field (str "scope") (text scope) (
                  field (str "token_type") (text (str "client_credentials"))
                    (field (str "client_id") (text req.client.client_id) end)))))))))

unfoldable pub machine_response : Request → (access_token scope : Text) → Response
unfolding token_type
machine_response req access_token scope = tokens (record {
  access_token = access_token;
  token_type = token_type req.dpop_jkt;
  expires_in = 3600;
  id_token = none;
  scope = scope;
  refresh_token = none;
})

module _ {State : Type 0} (host : Host State) where
  unfoldable pub handle_client_credentials : Request → (auth_method : Text) → Action State Response
  unfolding is_confidential machine_claims machine_response
  handle_client_credentials req auth_method = do
    guard (is_confidential req.client auth_method)
        (str "client_credentials grant requires confidential client")
    guard (contains req.client.grant_types (str "client_credentials"))
        (not_authorized req.client (str "client_credentials"))
    access_token ←
        reads (host.sign (machine_claims req (or_empty (form_value req.form (str "scope")))))
    pure (machine_response req access_token (or_empty (form_value req.form (str "scope"))))
