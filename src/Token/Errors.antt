-- ===== src/Token/Errors.antt =====
-- `map_token_error` of oidc-gateway/src/token.rs.
use jetauth.Token.Types.{Response, token_error}
use jetauth.Prelude.{
  Text, str, starts_with, contains_text, refl, Bool, false, List, [], ◌≡◌, ◌||◌, ◌∷◌, if◌then◌else◌,
}

-- Whether the text holds one of the others.
abbrev pub holds_one : Text → List Text → Bool
holds_one e [] = false
holds_one e (t ∷ ts) = contains_text e t || holds_one e ts

abbrev client_words : List Text
client_words =
    str "client_id"
    ∷ str "client_secret"
    ∷ str "client authentication"
    ∷ str "client_assertion"
    ∷ str "unregistered client"
    ∷ str "invalid client"
    ∷ []

abbrev grant_words : List Text
grant_words =
    str "code"
    ∷ str "expired"
    ∷ str "PKCE"
    ∷ str "redirect_uri"
    ∷ str "refresh token"
    ∷ str "user not found"
    ∷ str "mismatch"
    ∷ str "consumed"
    ∷ str "revoked"
    ∷ str "replay"
    ∷ []

unfoldable pub map_token_error : Text → Response
map_token_error e =
    if starts_with e (str "invalid_dpop_proof") || contains_text e (str "DPoP")
    then token_error 400 (str "invalid_dpop_proof") e
    else if holds_one e client_words
    then token_error 401 (str "invalid_client") (str "client authentication failed")
    else if holds_one e (str "grant_type" ∷ str "not authorized to use" ∷ [])
    then token_error 400 (str "unauthorized_client") e
    else if holds_one e grant_words
    then token_error 400 (str "invalid_grant") e
    else if holds_one e (str "rate" ∷ str "too many" ∷ [])
    then token_error 429 (str "invalid_request") e
    else token_error 400 (str "invalid_request") e

error_tests :
    (map_token_error (str "PKCE verification failed")
      ≡ token_error 400 (str "invalid_grant") (str "PKCE verification failed"))
    × (map_token_error (str "client_id mismatch")
        ≡ token_error 401 (str "invalid_client") (str "client authentication failed"))
unfolding map_token_error contains_text
error_tests = (refl, refl)
