-- ===== src/Authorize/Flow.antt =====
-- What `handle` of oidc-gateway/src/authorize.rs does once the request has passed its first tests:
-- the reuse of a browser session, and the login page.
use jetauth.Prelude.{
  Text, str, is_empty, contains, Result, ok, err, ok_or, ℕ, Bool, true, false, not, Option, none,
  some, List, [], ◌+◌, ◌&&◌, ◌||◌, ◌∷◌, ◌==◌, if◌then◌else◌, text_eq,
}
use jetauth.Kv.{Kv}
use jetauth.Action.{Action, ignore, pure, reads, lift, guard, if_then_return, ◌>>=◌, ◌>>◌}
use jetauth.Json.{Json}
use jetauth.Store.Types.{User, AuthCode, OidcClient}
use jetauth.Store.Records.{IdpSession, AuthSession}
use jetauth.Store.Wire.{Wire}
use jetauth.Store.Users.{get_user}
use jetauth.Store.Refresh.{is_user_revoked}
use jetauth.Store.Codes.{save_auth_code}
use jetauth.Store.OneTime.{save_auth_session}
use jetauth.Store.Consents.{has_user_consented}
use jetauth.Util.Redirect.{build_auth_code_redirect}
use jetauth.Token.ClientCredentials.{is_some}
use jetauth.Jwt.{str_field}
use jetauth.Authorize.Claims.{ClaimsRequest}
use jetauth.Authorize.Redirect.{authorize_error_redirect}
use jetauth.Authorize.Session.{
  acr_totp_mfa, has_mfa, acr_from_amr, or_true, refresh_idp_session_cookie_header,
  create_session_cookie,
}

-- A response: a redirect with its target and its address, the consent page for a code, or the login
-- page for a session.
pub data Answer : Type 0 where
  error_redirect code_redirect : (target location : Text) → Answer
  consent_page : (code : Text) → AuthCode → Answer
  login_page : (session_id : Text) → AuthSession → Answer

-- The request behind its first tests.
pub record Flow : Type 0 where
  pub client : OidcClient
  pub client_id : Text
  pub redirect_uri : Text
  pub state : Text
  pub code_challenge : Text
  pub prompt : Text
  pub max_age : Option ℕ
  pub scope : Text
  pub nonce : Text
  pub login_hint : Option Text
  pub cookie : Option Text

pub record ValidatedHint : Type 0 where
  pub user_id : Text
  pub email : Text

-- What the handler draws and reads: the clock where the code is issued, and random texts.
pub record Draws : Type 0 where
  pub now : ℕ
  pub code : Text
  pub sid : Text
  pub csrf_token : Text
  pub session_id : Text
  pub account_token : Text
  pub account_csrf : Text
  pub sha256_hex : Text → Text

abbrev pub error_to : (issuer : Text) → Flow → (error description : Text) → Answer
error_to issuer flow error description =
    error_redirect flow.redirect_uri
      (authorize_error_redirect flow.redirect_uri flow.state error description issuer)

abbrev builtin_clients : List Text
builtin_clients = str "lid-admin" ∷ str "lid-default" ∷ []

abbrev pub is_first_party : Flow → Bool
is_first_party flow = flow.client.first_party || contains builtin_clients flow.client_id

abbrev hint_matches : Option ValidatedHint → IdpSession → Bool
hint_matches none sso = true
hint_matches (some hint) sso = hint.user_id == sso.user_id

-- Each of the requested values is the second factor, and the session has it.
unfoldable pub acr_satisfied : List Text → IdpSession → Bool
acr_satisfied [] sso = true
acr_satisfied (v ∷ acr_values) sso =
    (v == acr_totp_mfa && has_mfa sso.amr) && acr_satisfied acr_values sso

abbrev or_false : Result Bool → Bool
or_false (ok b) = b
or_false (err e) = false

unfoldable pub sso_code : Draws → Flow → ClaimsRequest → IdpSession → User → Bool → AuthCode
unfolding acr_from_amr
sso_code draws flow claims sso user needs_consent = record {
  user_id = user.id;
  client_id = flow.client_id;
  redirect_uri = flow.redirect_uri;
  code_challenge = flow.code_challenge;
  code_challenge_method = str "S256";
  nonce = flow.nonce;
  scope = flow.scope;
  auth_time = sso.auth_time;
  amr = sso.amr;
  acr = acr_from_amr sso.amr;
  requested_id_token_claims = claims.id_token_claims;
  requested_userinfo_claims = claims.userinfo_claims;
  extra_claims = [];
  expires_at = draws.now + 300;
  csrf_token = draws.csrf_token;
  state = flow.state;
  sid = some draws.sid;
  pending_consent = needs_consent;
}

abbrev id_of : Option ValidatedHint → Option Text
id_of none = none
id_of (some hint) = some hint.user_id

abbrev nonempty : Option Text → Option Text
nonempty none = none
nonempty (some t) = if is_empty t then none else some t

abbrev email_of : Option ValidatedHint → Option Text → Option Text
email_of (some hint) login_hint = some hint.email
email_of none login_hint = nonempty login_hint

unfoldable pub login_session :
    Draws → Flow → ClaimsRequest → (acr_values : List Text) → Option ValidatedHint → AuthSession
login_session draws flow claims acr_values hint = record {
  client_id = flow.client_id;
  redirect_uri = flow.redirect_uri;
  code_challenge = flow.code_challenge;
  code_challenge_method = str "S256";
  state = flow.state;
  scope = flow.scope;
  nonce = flow.nonce;
  max_age = flow.max_age;
  acr_values = acr_values;
  requested_id_token_claims = claims.id_token_claims;
  requested_userinfo_claims = claims.userinfo_claims;
  hinted_user_id = id_of hint;
  hinted_email = email_of hint flow.login_hint;
  created_at = draws.now;
  needs_consent = flow.prompt == str "consent" || not (is_first_party flow);
  prompt = nonempty (some flow.prompt);
  sid = some draws.sid;
}

module _ {Payload : Type 0} (kv : Kv Payload) (wire : Wire Payload) (issuer : Text) where
  -- `verify` is `verify_token_scoped` of service_client.rs for this issuer and client.
  module _ (verify : Text → kv.State → Result Json) where
    abbrev invalid_hint : Text
    invalid_hint = str "invalid id_token_hint"

    abbrev or_invalid : {A : Type 0} → Result A → Result A
    or_invalid (ok a) = ok a
    or_invalid (err e) = err invalid_hint

    abbrev hinted : Result (Option User) → Result ValidatedHint
    hinted (err e) = err e
    hinted (ok none) = err invalid_hint
    hinted (ok (some user)) =
        if user.status == str "active"
        then ok (record { user_id = user.id; email = user.email })
        else err invalid_hint

    unfoldable pub validate_id_token_hint : Option Text → Action kv.State (Option ValidatedHint)
    unfolding get_user
    validate_id_token_hint none = pure none
    validate_id_token_hint (some []) = pure none
    validate_id_token_hint (some (c ∷ raw)) = do
      claims ← reads (λ s. or_invalid (verify (c ∷ raw) s))
      guard (not (is_some (str_field claims (str "token_type")))) invalid_hint
      user_id ← lift (ok_or (nonempty (str_field claims (str "sub"))) invalid_hint)
      hint ← reads (λ s. hinted (get_user kv wire user_id s))
      pure (some hint)

  -- The consent that a reused session still needs.
  unfoldable pub sso_consent : Flow → User → kv.State → Bool
  unfolding has_user_consented
  sso_consent flow user s =
      flow.prompt == str "consent"
      || not (is_first_party flow)
        && not (or_false (has_user_consented kv wire user.id flow.client_id flow.scope s))

  -- The page or the redirect for a code.
  abbrev pub answer_code : Draws → Flow → AuthCode → Answer
  answer_code draws flow auth_code =
      if auth_code.pending_consent
      then consent_page draws.code auth_code
      else code_redirect flow.redirect_uri
          (build_auth_code_redirect flow.redirect_uri draws.code flow.state issuer)

  -- The browser session lives on, and a session for the account's pages starts; errors of either
  -- are dropped.
  unfoldable pub slide_sessions : Draws → Flow → User → Action kv.State (Unit {0})
  unfolding refresh_idp_session_cookie_header create_session_cookie
  slide_sessions draws flow user =
      ignore (refresh_idp_session_cookie_header kv wire draws.sha256_hex draws.now flow.cookie)
      >> ignore (
          create_session_cookie kv wire draws.sha256_hex draws.now draws.account_token
            draws.account_csrf user.id)

  unfoldable pub issue_code :
      Draws → Flow → ClaimsRequest → IdpSession → User → Bool → Action kv.State Answer
  unfolding sso_code save_auth_code slide_sessions
  issue_code draws flow claims sso user needs_consent =
      if_then_return (needs_consent && flow.prompt == str "none")
        (pure (
          error_to issuer flow (str "consent_required")
            (str "interaction required: client requires user consent")))
        (save_auth_code kv wire draws.code (sso_code draws flow claims sso user needs_consent)
          >> (slide_sessions draws flow user
              >> pure (answer_code draws flow (sso_code draws flow claims sso user needs_consent))))

  unfoldable pub show_login :
      Draws
      → Flow
      → ClaimsRequest
      → (acr_values : List Text) → Option ValidatedHint
      → Action kv.State Answer
  unfolding login_session save_auth_session
  show_login draws flow claims acr_values hint =
      if_then_return (flow.prompt == str "none")
        (pure (
          error_to issuer flow (str "login_required")
            (str "prompt=none cannot be satisfied without user interaction")))
        (save_auth_session kv wire draws.session_id
            (login_session draws flow claims acr_values hint)
          >> pure (login_page draws.session_id (login_session draws flow claims acr_values hint)))

  -- A session that cannot be reused.
  abbrev pub unusable :
      Draws
      → Flow
      → ClaimsRequest
      → List Text
      → Option ValidatedHint
      → IdpSession
      → Action kv.State Answer
  unusable draws flow claims acr_values hint sso =
      if_then_return (flow.prompt == str "none")
        (pure (
          error_to issuer flow
            (if acr_satisfied acr_values sso
              then str "login_required"
              else str "interaction_required")
            (str "prompt=none cannot be satisfied without user interaction")))
        (show_login draws flow claims acr_values hint)

  -- The user of a session that may be reused.
  abbrev pub usable :
      List Text → Option ValidatedHint → IdpSession → kv.State → Result (Option User) → Option User
  usable acr_values hint sso s (ok (some user)) =
      if hint_matches hint sso
        && acr_satisfied acr_values sso
        && not (or_true (is_user_revoked kv wire sso.user_id sso.auth_time s))
        && user.status == str "active"
      then some user
      else none
  usable acr_values hint sso s _ = none

  abbrev pub reuse :
      Draws
      → Flow
      → ClaimsRequest
      → List Text
      → Option ValidatedHint
      → IdpSession
      → Option User
      → Action kv.State Answer
  reuse draws flow claims acr_values hint sso none s =
      unusable draws flow claims acr_values hint sso s
  reuse draws flow claims acr_values hint sso (some user) s =
      issue_code draws flow claims sso user (sso_consent flow user s) s

  -- The end of the handler: with a browser session, or without one.
  unfoldable pub proceed :
      Draws
      → Flow
      → ClaimsRequest
      → (acr_values : List Text) → Option ValidatedHint
      → Option IdpSession
      → Action kv.State Answer
  unfolding issue_code show_login sso_consent acr_satisfied is_user_revoked get_user
  proceed draws flow claims acr_values hint none = show_login draws flow claims acr_values hint
  proceed draws flow claims acr_values hint (some sso) = do
    user ← reads (λ s. ok (usable acr_values hint sso s (get_user kv wire sso.user_id s)))
    reuse draws flow claims acr_values hint sso user
