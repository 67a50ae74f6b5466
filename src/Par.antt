-- ===== src/Par.antt =====
-- Pushed authorization requests: oidc-gateway/src/par.rs.
use jetauth.Prelude.{
  Text, str, contains_text, contains, Result, ok, err, ℕ, Bool, Option, none, some, [], ◌+◌, ◌||◌,
  ◌∷◌, ◌++◌, ◌==◌, if◌then◌else◌, text_eq,
}
use jetauth.Kv.{Kv}
use jetauth.Action.{Action, pure, outcome, ◌>>=◌}
use jetauth.Util.Query.{Form, form_value, parse_form}
use jetauth.Store.Types.{OidcClient}
use jetauth.Store.Records.{PushedAuthRequest}
use jetauth.Store.Wire.{Wire}
use jetauth.Store.Sessions.{save_pushed_auth_request, ttl_par_request}
use jetauth.Token.Revoke.{is_unproved}
use jetauth.ClientAuth.{AuthenticatedClient, Verifier}
use jetauth.ClientAuth.Methods.{authenticate_client}

pub data Answer : Type 0 where
  created : (request_uri : Text) → (expires_in : ℕ) → Answer
  par_error : (status : ℕ) → (error description : Text) → Answer

abbrev invalid_request : Text → Answer
invalid_request description = par_error 400 (str "invalid_request") description

abbrev invalid_client : Text → Answer
invalid_client e =
    par_error
      (if contains_text e (str "multiple") || contains_text e (str "missing") then 400 else 401)
      (str "invalid_client") e

-- The tests, each of which either ends with an answer or goes on: a present `request_uri`, another
-- client's identifier, the response type, the redirect URI, and the method of the challenge.
abbrev no_request_uri : Option Text → Option Answer → Option Answer
no_request_uri (some _) rest = some (
    invalid_request
      (str "request_uri parameter is not permitted in a pushed authorization request"))
no_request_uri none rest = rest

abbrev same_client : OidcClient → Option Text → Option Answer → Option Answer
same_client client none rest = rest
same_client client (some cid) rest =
    if cid == client.client_id
    then rest
    else some (invalid_request (str "client_id mismatch between authentication and request body"))

abbrev code_only : Option Text → Option Answer → Option Answer
code_only none rest = some (invalid_request (str "missing response_type"))
code_only (some response_type) rest =
    if response_type == str "code"
    then rest
    else some (
        par_error 400 (str "unsupported_response_type")
          (str "only response_type=code is supported"))

abbrev pub registered_uri : OidcClient → Option Text → Option Answer → Option Answer
registered_uri client none rest = some (invalid_request (str "missing redirect_uri"))
registered_uri client (some redirect_uri) rest =
    if contains client.redirect_uris redirect_uri
    then rest
    else some (invalid_request (str "redirect_uri is not registered for this client"))

abbrev s256_only : Option Text → Option Answer
s256_only none = none
s256_only (some method) =
    if method == str "S256"
    then none
    else some (invalid_request (str "code_challenge_method must be S256"))

unfoldable pub check_par : OidcClient → Form → Option Answer
check_par client form = no_request_uri (form_value form (str "request_uri")) (
    same_client client (form_value form (str "client_id")) (
      code_only (form_value form (str "response_type")) (
        registered_uri client (form_value form (str "redirect_uri"))
          (s256_only (form_value form (str "code_challenge_method"))))))

abbrev pub is_credential : Text → Bool
is_credential k =
    k == str "client_secret" || k == str "client_assertion" || k == str "client_assertion_type"

-- `params.insert(k, v)`
unfoldable pub insert_param : Form → Text → Text → Form
insert_param [] k v = (k, v) ∷ []
insert_param ((j, w) ∷ params) k v =
    let rest = insert_param params k v in if j == k then (j, v) ∷ params else (j, w) ∷ rest

-- The loop that leaves the credentials out.
unfoldable pub kept_params : Form → Form → Form
unfolding insert_param
kept_params params [] = params
kept_params params ((k, v) ∷ form) =
    kept_params (if is_credential k then params else insert_param params k v) form

unfoldable pub pushed_entry : OidcClient → Form → (created_at expires_at : ℕ) → PushedAuthRequest
unfolding kept_params insert_param
pushed_entry client form created_at expires_at = record {
  client_id = client.client_id;
  parameters = insert_param (kept_params [] form) (str "client_id") client.client_id;
  created_at = created_at;
  expires_at = expires_at;
}

-- `now` is what the clock gives at each place that reads it, `random` what `random_hex(24)` gives.
module _ {Payload : Type 0} (kv : Kv Payload) (wire : Wire Payload) (verifier : Verifier)
    (now : ℕ → ℕ) (random issuer : Text) where
  abbrev pub request_uri : Text
  request_uri = str "urn:ietf:params:oauth:request_uri:" ++ random

  abbrev stored_or : Result (Unit {0}) → Answer
  stored_or (ok _) = created request_uri ttl_par_request
  stored_or (err e) = par_error 500 (str "server_error") (str "failed to store PAR request: " ++ e)

  unfoldable pub push : OidcClient → Form → Action kv.State Answer
  unfolding pushed_entry save_pushed_auth_request
  push client form = do
    saved ← outcome (
        save_pushed_auth_request kv wire request_uri
          (pushed_entry client form (now 3) (now 2 + ttl_par_request)) ttl_par_request)
    pure (stored_or saved)

  abbrev pub push_unless : OidcClient → Form → Option Answer → Action kv.State Answer
  push_unless client form (some refusal) s = (ok refusal, s)
  push_unless client form none s = push client form s

  abbrev pub for_client : Form → Result AuthenticatedClient → Action kv.State Answer
  for_client form (err e) s = (ok (invalid_client e), s)
  for_client form (ok auth) s =
      if is_unproved auth.client auth.auth_method
      then (
        ok (
            par_error 401 (str "invalid_client")
              (str "confidential client must authenticate at the PAR endpoint")),
        s,
      )
      else push_unless auth.client form (check_par auth.client form) s

  unfoldable pub handle_par : (body : Text) → (auth_header : Option Text) → Action kv.State Answer
  unfolding parse_form authenticate_client is_unproved check_par push
  handle_par body auth_header = do
    who ← outcome (
        authenticate_client kv wire verifier now (parse_form body) auth_header issuer
          (str "/connect/par"))
    for_client (parse_form body) who
