-- ===== src/Authorize/Handle.antt =====
-- `handle` of oidc-gateway/src/authorize.rs.
use jetauth.Prelude.{
  Text, str, starts_with, ltb, Result, ok, err, ok_or, ℕ, Bool, true, false, not, Option, none,
  some, List, [], or_empty, ◌&&◌, ◌||◌, ◌∷◌, ◌++◌, ◌==◌, if◌then◌else◌, text_eq,
}
use jetauth.Kv.{Kv}
use jetauth.Action.{Action, pure, reads, ignore, outcome, lift, guard, if_then_return, ◌>>=◌, ◌>>◌}
use jetauth.Json.{Json}
use jetauth.Util.Query.{Form, form_value, parse_query, check_no_duplicates}
use jetauth.Store.Types.{OidcClient}
use jetauth.Store.Records.{IdpSession}
use jetauth.Store.Wire.{Wire}
use jetauth.Store.Clients.{get_client, ensure_admin_client, admin_id}
use jetauth.Store.Sessions.{get_pushed_auth_request, delete_pushed_auth_request}
use jetauth.Token.Issue.{required}
use jetauth.ClientAuth.{same_id}
use jetauth.Authorize.Claims.{ClaimsRequest, parse_acr_values, parse_claims_param}
use jetauth.Authorize.Redirect.{
  has_control, is_valid_redirect, Verdict, go, refuse, fatal, check_request, check_max_age,
}
use jetauth.Authorize.Session.{get_idp_session_from_headers, filter_age, acr_totp_mfa}
use jetauth.Authorize.Flow.{
  Answer, Flow, ValidatedHint, Draws, error_to, validate_id_token_hint, proceed,
}

-- What the handler uses of other parts: the derived equality of clients, the parser of JSON, the
-- verification of tokens, the hash of cookies, and the clock at each place that reads it.
pub record Host (State : Type 0) : Type 0 where
  pub same_client : OidcClient → OidcClient → Bool
  pub from_slice : Text → Result Json
  pub verify_token_scoped : (raw issuer client_id : Text) → State → Result Json
  pub sha256_hex : Text → Text
  pub clock : ℕ → ℕ
  pub draws : Draws

abbrev request_uri_prefix : Text
request_uri_prefix = str "urn:ietf:params:oauth:request_uri:"

-- No parameters but these two beside a pushed request.
unfoldable pub only_par : Form → Bool
only_par [] = true
only_par ((k, _) ∷ params) = (k == str "client_id" || k == str "request_uri") && only_par params

unfoldable pub only_totp : List Text → Bool
only_totp [] = true
only_totp (v ∷ acr_values) = v == acr_totp_mfa && only_totp acr_values

abbrev pub not_both : List Text → List Text → Bool
not_both (a ∷ requested) (c ∷ claimed) = false
not_both _ _ = true

abbrev pub or_claims : List Text → List Text → List Text
or_claims [] claimed = claimed
or_claims (a ∷ requested) claimed = a ∷ requested

abbrev pub or_default : Text → Option Text → Text
or_default t none = t
or_default t (some u) = u

abbrev pub has_none : {A : Type 0} → Option A → Bool
has_none none = true
has_none (some a) = false

module _ {Payload : Type 0} (kv : Kv Payload) (wire : Wire Payload) (host : Host kv.State)
    (issuer : Text) where
  -- The parameters of a pushed request, which is used up.
  unfoldable pub resolve_par : Form → (req_uri : Text) → Action kv.State (Form × Bool)
  unfolding get_pushed_auth_request delete_pushed_auth_request only_par starts_with
  resolve_par query req_uri = do
    guard (starts_with req_uri request_uri_prefix) (str "invalid request_uri parameter format")
    entry ← reads (λ s.
        required (str "invalid or expired request_uri") (get_pushed_auth_request kv wire req_uri s))
    ignore (delete_pushed_auth_request kv wire req_uri)
    guard (not (ltb entry.expires_at (host.clock 0))) (str "request_uri has expired")
    lift (
        same_id (form_value query (str "client_id")) entry.client_id
          (str "client_id in authorization request does not match request_uri"))
    guard (only_par query)
        (str "authorization request with request_uri MUST NOT contain other parameters")
    pure (entry.parameters, true)

  -- The parameters, and whether they were pushed.
  abbrev pub resolve : Form → Option Text → Action kv.State (Form × Bool)
  resolve query none s = (ok (query, false), s)
  resolve query (some req_uri) s = resolve_par query req_uri s

  abbrev unknown : Text → Text
  unknown client_id = str "unknown client_id: " ++ client_id

  abbrev pub found_client : Text → Option OidcClient → Action kv.State OidcClient
  found_client client_id (some client) s = (ok client, s)
  found_client client_id none s =
      if client_id == admin_id
      then (ensure_admin_client kv wire host.same_client issuer
            >> reads (λ t. required (unknown client_id) (get_client kv wire client_id t)))
          s
      else (err (unknown client_id), s)

  -- The client; that of the admin pages is saved where it is missing.
  unfoldable pub find_client : Text → Action kv.State OidcClient
  unfolding get_client ensure_admin_client
  find_client client_id = do o ← reads (get_client kv wire client_id); found_client client_id o

  -- An error goes to the redirect URI of the request, which has been tested.
  abbrev pub on_verdict :
      {A : Type 0}
      → (refusal : Text → Text → Answer) → Verdict A
      → (A → Action kv.State Answer)
      → Action kv.State Answer
  on_verdict refusal (go a) next s = next a s
  on_verdict refusal (refuse error description) next s = (ok (refusal error description), s)
  on_verdict refusal (fatal e) next s = (err e, s)

  abbrev pub claims_verdict : Result ClaimsRequest → Verdict ClaimsRequest
  claims_verdict (ok claims) = go claims
  claims_verdict (err e) = refuse (str "invalid_request") e

  abbrev pub hint_verdict : Result (Option ValidatedHint) → Verdict (Option ValidatedHint)
  hint_verdict (ok hint) = go hint
  hint_verdict (err e) = refuse (str "invalid_request") (str "invalid id_token_hint")

  -- The requested classes, of one of the two parameters, which are all the second factor.
  abbrev pub acr_verdict : List Text → ClaimsRequest → Verdict (List Text)
  acr_verdict acr_values claims =
      if not (not_both acr_values claims.acr_values)
      then refuse (str "invalid_request")
          (str "claims parameter acr request cannot be combined with acr_values")
      else if not (only_totp (or_claims acr_values claims.acr_values))
      then refuse (str "access_denied")
          (str "requested acr_values are not supported by this provider")
      else go (or_claims acr_values claims.acr_values)

  -- The hint, and what follows.
  abbrev pub read_hint : Flow → Form → kv.State → Result (Result (Option ValidatedHint)) × kv.State
  read_hint flow params = outcome (
      validate_id_token_hint kv wire issuer
        (λ raw. host.verify_token_scoped raw issuer flow.client_id)
        (form_value params (str "id_token_hint")))

  abbrev pub by_hint :
      Flow
      → Option IdpSession
      → ClaimsRequest
      → (acr_values : List Text) → Result (Option ValidatedHint)
      → Action kv.State Answer
  by_hint flow idp_session claims acr_values hint =
      on_verdict (error_to issuer flow) (hint_verdict hint)
        (λ h. proceed kv wire issuer host.draws flow claims acr_values h idp_session)

  unfoldable pub with_hint :
      Flow
      → Form
      → Option IdpSession
      → ClaimsRequest
      → (acr_values : List Text) → Action kv.State Answer
  unfolding validate_id_token_hint proceed
  with_hint flow params idp_session claims acr_values =
      read_hint flow params >>= by_hint flow idp_session claims acr_values

  -- The classes, and what follows.
  unfoldable pub with_acr : Flow → Form → Option IdpSession → ClaimsRequest → Action kv.State Answer
  unfolding parse_acr_values only_totp with_hint
  with_acr flow params idp_session claims =
      on_verdict (error_to issuer flow)
        (acr_verdict (parse_acr_values (form_value params (str "acr_values"))) claims)
        (with_hint flow params idp_session claims)

  -- The claims, and what follows.
  unfoldable pub with_claims : Flow → Form → Option IdpSession → Action kv.State Answer
  unfolding parse_claims_param with_acr
  with_claims flow params idp_session =
      on_verdict (error_to issuer flow)
        (claims_verdict (parse_claims_param host.from_slice (form_value params (str "claims"))))
        (with_acr flow params idp_session)

  abbrev pub session_unless : Bool → Option Text → Action kv.State (Option IdpSession)
  session_unless true cookie s = (ok none, s)
  session_unless false cookie s =
      get_idp_session_from_headers kv wire host.sha256_hex (host.clock 1) cookie s

  -- The browser session, if it may be used and is fresh enough.
  unfoldable pub with_session : Flow → Form → (cookie : Option Text) → Action kv.State Answer
  unfolding get_idp_session_from_headers filter_age with_claims
  with_session flow params cookie = do
    session ← session_unless (flow.prompt == str "login") cookie
    if_then_return
        (flow.prompt == str "none" && has_none (filter_age (host.clock 2) flow.max_age session))
        (pure (
          error_to issuer flow (str "login_required")
            (str "prompt=none requires existing session")))
        (with_claims flow params (filter_age (host.clock 2) flow.max_age session))

  abbrev pub flow_of : OidcClient → Text → Text → Form → (code_challenge : Text) → Flow
  flow_of client client_id redirect_uri params code_challenge = record {
    client = client;
    client_id = client_id;
    redirect_uri = redirect_uri;
    state = or_empty (form_value params (str "state"));
    code_challenge = code_challenge;
    prompt = or_empty (form_value params (str "prompt"));
    max_age = none;
    scope = or_default (str "openid") (form_value params (str "scope"));
    nonce = or_empty (form_value params (str "nonce"));
    login_hint = form_value params (str "login_hint");
    cookie = none;
  }

  -- Behind the test of the redirect URI.
  abbrev pub with_age : Flow → Form → (cookie : Option Text) → Option ℕ → Action kv.State Answer
  with_age flow params cookie max_age =
      with_session (record flow { max_age = max_age; cookie = cookie }) params cookie

  abbrev pub with_challenge :
      OidcClient
      → (client_id redirect_uri : Text) → Form
      → (cookie : Option Text) → (code_challenge : Text) → Action kv.State Answer
  with_challenge client client_id redirect_uri params cookie code_challenge =
      let flow = flow_of client client_id redirect_uri params code_challenge in
      on_verdict (error_to issuer flow) (check_max_age (form_value params (str "max_age")))
        (with_age flow params cookie)

  unfoldable pub after_redirect :
      OidcClient
      → (client_id redirect_uri : Text) → Form
      → (used_par : Bool) → (cookie : Option Text) → Action kv.State Answer
  unfolding check_request check_max_age with_session
  after_redirect client client_id redirect_uri params used_par cookie =
      on_verdict (error_to issuer (flow_of client client_id redirect_uri params []))
        (check_request client used_par params)
        (with_challenge client client_id redirect_uri params cookie)

  unfoldable pub handle : (query : Text) → (cookie : Option Text) → Action kv.State Answer
  unfolding resolve_par find_client has_control is_valid_redirect after_redirect parse_query
      check_no_duplicates
  handle query cookie = do
    lift (check_no_duplicates (parse_query query))
    (params, used_par) ←
        resolve (parse_query query) (form_value (parse_query query) (str "request_uri"))
    client_id ← lift (ok_or (form_value params (str "client_id")) (str "missing client_id"))
    redirect_uri ←
        lift (ok_or (form_value params (str "redirect_uri")) (str "missing redirect_uri"))
    guard (not (has_control redirect_uri)) (str "redirect_uri contains invalid characters")
    client ← find_client client_id
    guard (is_valid_redirect client issuer redirect_uri)
        (str "redirect_uri not registered for this client")
    after_redirect client client_id redirect_uri params used_par cookie
