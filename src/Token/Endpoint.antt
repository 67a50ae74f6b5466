-- ===== src/Token/Endpoint.antt =====
-- `handle` of oidc-gateway/src/token.rs: the tests before a grant, and the choice of the grant.
pub mod Admitted
use jetauth.Prelude.{
  Text, str, Result, ok, err, ok_or, ℕ, Bool, true, false, Option, none, some, ◌++◌, ◌==◌,
  if◌then◌else◌, text_eq,
}
use jetauth.Kv.{Kv}
use jetauth.Action.{Action, pure, lift, outcome, ◌>>=◌}
use jetauth.Util.Query.{Form, form_value, parse_form, check_no_duplicates}
use jetauth.Store.Types.{OidcClient}
use jetauth.Store.Wire.{Wire}
use jetauth.Abuse.{check_rate}
use jetauth.ClientAuth.{AuthenticatedClient, Verifier}
use jetauth.ClientAuth.Methods.{authenticate_client}
use jetauth.Dpop.{validate_dpop_proof}
use jetauth.Token.Types.{Host, Request, Response, token_error}
use jetauth.Token.Errors.{map_token_error}
use jetauth.Token.Code.{handle_code_exchange}
use jetauth.Token.Rotation.{handle_refresh}
use jetauth.Token.ClientCredentials.{handle_client_credentials}
use jetauth.Token.Device.{handle_device_code}
use jetauth.Token.Revoke.{is_unproved}

-- What arrives, with the clock at the places that read it, the random text of a refresh token, and
-- the configured lifetime of a family of refresh tokens.
pub record Arrival : Type 0 where
  pub body : Text
  pub auth_header : Option Text
  pub dpop_header : Option Text
  pub issuer : Text
  pub proof_now : ℕ → ℕ
  pub client_now : ℕ → ℕ
  pub rate_now : ℕ
  pub grant_now : ℕ → ℕ
  pub random : Text
  pub absolute_max : ℕ

abbrev pub request_of : Arrival → OidcClient → (dpop_jkt : Option Text) → Request
request_of arrival client dpop_jkt = record {
  form = parse_form arrival.body;
  client = client;
  dpop_jkt = dpop_jkt;
  issuer = arrival.issuer;
  now = arrival.grant_now;
  random = arrival.random;
}

abbrev pub device_grant : Text
device_grant = str "urn:ietf:params:oauth:grant-type:device_code"

-- The answer to the result of a grant.
abbrev pub answer_of : Result Response → Response
answer_of (ok response) = response
answer_of (err e) = map_token_error e

abbrev pub unsupported : Text → Response
unsupported grant_type =
    token_error 400 (str "unsupported_grant_type") (str "unsupported grant_type: " ++ grant_type)

module _ {Payload : Type 0} (kv : Kv Payload) (wire : Wire Payload) (host : Host kv.State)
    (verifier : Verifier) where
  -- A grant, whose errors are answered too.
  abbrev pub settled : Action kv.State Response → Action kv.State Response
  settled grant s = let out = grant s in (ok (answer_of out.0), out.1)

  unfoldable pub dispatch :
      (absolute_max : ℕ) → Request → (auth_method grant_type : Text) → Action kv.State Response
  unfolding handle_code_exchange handle_refresh handle_client_credentials handle_device_code
      map_token_error
  dispatch absolute_max req auth_method grant_type s =
      if grant_type == str "authorization_code"
      then settled (handle_code_exchange kv wire host req) s
      else if grant_type == str "refresh_token"
      then settled (handle_refresh kv wire host absolute_max req) s
      else if grant_type == str "client_credentials"
      then settled (handle_client_credentials host req auth_method) s
      else if grant_type == device_grant
      then settled (handle_device_code kv wire host req) s
      else (ok (unsupported grant_type), s)

  -- What the limiter says: it fails closed.
  abbrev pub limited : Result (Bool × ℕ) → Action kv.State Response → Action kv.State Response
  limited (ok (true, _)) grant s = grant s
  limited (ok (false, _)) grant s =
      (err (str "too many token requests. please try again later."), s)
  limited (err e) grant s = (
    ok (
        token_error 429 (str "invalid_request")
          (str "rate limiter unavailable; please try again later")),
    s,
  )

  abbrev pub rate_key : OidcClient → Text
  rate_key client = str "token:" ++ client.client_id

  unfoldable pub grant_limited :
      Arrival → AuthenticatedClient → (grant_type : Text) → Option Text → Action kv.State Response
  unfolding dispatch check_rate
  grant_limited arrival auth grant_type jkt = do
    rate ← outcome (check_rate kv wire arrival.rate_now (rate_key auth.client) 100 60)
    limited rate (
        dispatch arrival.absolute_max (request_of arrival auth.client jkt) auth.auth_method
          grant_type)

  -- Behind the client's authentication.
  abbrev pub for_client :
      Arrival
      → (grant_type : Text) → Option Text
      → Result AuthenticatedClient
      → Action kv.State Response
  for_client arrival grant_type jkt (err e) s = (ok (map_token_error e), s)
  for_client arrival grant_type jkt (ok auth) s =
      if is_unproved auth.client auth.auth_method
      then (ok (map_token_error (str "client authentication required for confidential client")), s)
      else grant_limited arrival auth grant_type jkt s

  -- The thumbprint of the key of a proof that came with the request.
  abbrev pub some_jkt : Result Text → Result (Option Text)
  some_jkt (ok jkt) = ok (some jkt)
  some_jkt (err e) = err e

  abbrev pub read_proof :
      Arrival → Option Text → kv.State → Result (Result (Option Text)) × kv.State
  read_proof arrival none s = (ok (ok none), s)
  read_proof arrival (some proof) s =
      let out =
        validate_dpop_proof kv wire verifier.crypto arrival.proof_now proof (str "POST")
          (arrival.issuer ++ str "/token") none s in
      (ok (some_jkt out.0), out.1)

  abbrev pub authenticates : Arrival → Action kv.State (Result AuthenticatedClient)
  authenticates arrival = outcome (
      authenticate_client kv wire verifier arrival.client_now (parse_form arrival.body)
        arrival.auth_header arrival.issuer (str "/token"))

  -- Behind the proof.
  abbrev pub with_proof :
      Arrival → (grant_type : Text) → Result (Option Text) → Action kv.State Response
  with_proof arrival grant_type (err e) s = (ok (token_error 400 (str "invalid_dpop_proof") e), s)
  with_proof arrival grant_type (ok jkt) s =
      (authenticates arrival >>= for_client arrival grant_type jkt) s

  unfoldable pub with_grant : Arrival → (grant_type : Text) → Action kv.State Response
  unfolding validate_dpop_proof authenticate_client is_unproved grant_limited
  with_grant arrival grant_type =
      read_proof arrival arrival.dpop_header >>= with_proof arrival grant_type

  abbrev pub unless_twice : Arrival → Form → Result (Unit {0}) → Action kv.State Response
  unless_twice arrival form (err e) s = (ok (token_error 400 (str "invalid_request") e), s)
  unless_twice arrival form (ok _) s =
      (lift (ok_or (form_value form (str "grant_type")) (str "missing grant_type"))
          >>= with_grant arrival)
        s

  unfoldable pub handle : Arrival → Action kv.State Response
  unfolding with_grant check_no_duplicates parse_form
  handle arrival =
      unless_twice arrival (parse_form arrival.body) (check_no_duplicates (parse_form arrival.body))
