-- ===== src/Token/Introspect.antt =====
-- `handle_introspect` of oidc-gateway/src/token.rs: what a confidential client learns of a token.
pub mod Disclosed
use jetauth.Prelude.{
  Text, str, Result, ok, err, ok_or, ℕ, Bool, true, false, not, Option, none, some, List, [], ◌&&◌,
  ◌||◌, ◌∷◌, ◌++◌, ◌==◌, if◌then◌else◌, text_eq,
}
use jetauth.Kv.{Kv}
use jetauth.Action.{Action, pure, lift, reads, outcome, bind-eq-ok, ◌>>=◌}
use jetauth.Json.{Json, Fields, bool, text, obj, field, end, get, set_field, as_array}
use jetauth.Jwt.{str_field}
use jetauth.Store.Types.{OidcClient}
use jetauth.Store.Wire.{Wire}
use jetauth.Abuse.{check_rate}
use jetauth.Util.Query.{Form, form_value, parse_form, check_no_duplicates}
use jetauth.ClientAuth.{AuthenticatedClient, Verifier}
use jetauth.ClientAuth.Methods.{authenticate_client}
use jetauth.ClientAuth.Proved.{IsProved}
use jetauth.Token.ClientCredentials.{is_some}

-- Claims of a token, or an error.
pub data Answer : Type 0 where
  active : Fields → Answer
  inactive : Answer
  refused : (status : ℕ) → (error : Text) → Answer

abbrev type_is : Option Text → Bool
type_is none = false
type_is (some t) = t == str "access" || t == str "client_credentials"

unfoldable pub introspectable_token_type : Json → Bool
introspectable_token_type claims = type_is (str_field claims (str "token_type"))

abbrev pub copied_claims : List Text
copied_claims =
    str "iss"
    ∷ str "sub"
    ∷ str "exp"
    ∷ str "iat"
    ∷ str "nbf"
    ∷ str "scope"
    ∷ str "client_id"
    ∷ str "username"
    ∷ str "token_type"
    ∷ str "email"
    ∷ str "name"
    ∷ str "tenant_id"
    ∷ str "role"
    ∷ str "auth_time"
    ∷ []

abbrev set_if : Fields → Text → Option Json → Fields
set_if response key none = response
set_if response key (some value) = set_field response key value

unfoldable pub copy_claims : Json → List Text → Fields → Fields
unfolding set_field
copy_claims claims [] response = response
copy_claims claims (key ∷ keys) response =
    copy_claims claims keys (set_if response key (get claims key))

abbrev only_text : Option (List Json) → Option Text
only_text (some (text t ∷ [])) = some t
only_text _ = none

-- The client that a sole audience names.
abbrev audience_of : Json → Option Text
audience_of (text t) = some t
audience_of aud = only_text (as_array aud)

abbrev set_client : Option Json → Option Text → Fields → Fields
set_client none (some client_id) response = set_field response (str "client_id") (text client_id)
set_client _ _ response = response

abbrev set_audience : Option Json → Fields → Fields
set_audience none response = response
set_audience (some aud) response =
    set_client (get (obj response) (str "client_id")) (audience_of aud)
      (set_field response (str "aud") aud)

abbrev set_key : Option Json → Fields → Fields
set_key none response = response
set_key (some cnf) response =
    set_field (set_field response (str "cnf") cnf) (str "token_type") (text (str "DPoP"))

unfoldable pub build_introspection_response : Json → Fields
unfolding copy_claims set_field
build_introspection_response claims = set_key (get claims (str "cnf")) (
    set_audience (get claims (str "aud"))
      (copy_claims claims copied_claims (field (str "active") (bool true) end)))

-- A client without a secret and without keys, or one that has presented none.
unfoldable pub is_public : AuthenticatedClient → Bool
is_public auth =
    not (is_some auth.client.client_secret) && not (is_some auth.client.jwks)
    || auth.auth_method == str "none"

abbrev pub of_claims : Result Json → Answer
of_claims (err e) = inactive
of_claims (ok claims) =
    if introspectable_token_type claims
    then active (build_introspection_response claims)
    else inactive

-- `verify` is `verify_token_scoped` of service_client.rs for this issuer and any client; the clocks
-- are those of the client's authentication and of the limiter.
module _ {Payload : Type 0} (kv : Kv Payload) (wire : Wire Payload) (verifier : Verifier)
    (verify : Text → kv.State → Result Json) (now : ℕ → ℕ) (rate_now : ℕ) (issuer : Text) where
  -- The limiter fails closed.
  abbrev pub by_rate : (token : Text) → Result (Bool × ℕ) → Action kv.State Answer
  by_rate token (ok (true, _)) s = (ok (of_claims (verify token s)), s)
  by_rate token (ok (false, _)) s = (ok (refused 429 (str "rate_limit_exceeded")), s)
  by_rate token (err e) s = (ok (refused 429 (str "invalid_request")), s)

  abbrev pub ask_rate : OidcClient → Action kv.State (Result (Bool × ℕ))
  ask_rate client =
      outcome (check_rate kv wire rate_now (str "introspect:" ++ client.client_id) 100 60)

  abbrev pub for_caller : (token : Text) → Result AuthenticatedClient → Action kv.State Answer
  for_caller token (err e) s = (ok (refused 401 (str "invalid_client")), s)
  for_caller token (ok auth) s =
      if is_public auth
      then (ok (refused 401 (str "invalid_client")), s)
      else (ask_rate auth.client >>= by_rate token) s

  abbrev pub ask_client :
      Form → (auth_header : Option Text) → Action kv.State (Result AuthenticatedClient)
  ask_client form auth_header =
      outcome
        (authenticate_client kv wire verifier now form auth_header issuer (str "/token/introspect"))

  abbrev pub checked :
      Form → (auth_header : Option Text) → Result (Unit {0}) → Action kv.State Answer
  checked form auth_header (err e) s = (ok (refused 400 (str "invalid_request")), s)
  checked form auth_header (ok _) s =
      (lift (ok_or (form_value form (str "token")) (str "missing token"))
          >>= (λ token. ask_client form auth_header >>= for_caller token))
        s

  unfoldable pub handle_introspect :
      (body : Text) → (auth_header : Option Text) → Action kv.State Answer
  unfolding check_no_duplicates parse_form authenticate_client is_public check_rate
      introspectable_token_type build_introspection_response
  handle_introspect body auth_header =
      checked (parse_form body) auth_header (check_no_duplicates (parse_form body))
