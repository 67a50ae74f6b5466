-- ===== src/Token/Code.antt =====
-- The authorization code grant: `handle_code_exchange` of oidc-gateway/src/token.rs.
pub mod Checks
pub mod Success
pub mod Refused
pub mod Offline
pub mod Replay
use jetauth.Prelude.{
  Text, str, is_empty, contains, ltb, Result, ok, err, ok_or, ℕ, Bool, true, false, not, Option,
  none, some, [], ◌+◌, ◌*◌, ◌∷◌, ◌++◌, ◌==◌, if◌then◌else◌, text_eq, nat_eq,
}
use jetauth.Kv.{Kv}
use jetauth.Action.{Action, pure, guard, lift, reads, ignore, map_err, ◌>>=◌, ◌>>◌}
use jetauth.Util.Query.{form_value}
use jetauth.Store.Types.{User, AuthCode, RefreshEntry, OidcClient}
use jetauth.Store.Wire.{Wire}
use jetauth.Store.Codes.{get_auth_code_cas, consume_auth_code, delete_auth_code}
use jetauth.Store.Refresh.{save_refresh_token}
use jetauth.Token.Types.{Response, Host, Request, hex_sha256, verify_pkce}
use jetauth.Token.Claims.{ClaimInput, build_claims}
use jetauth.Token.Issue.{
  has_offline_access, required, memberships_of, require_user, sign_tokens, user_response,
}

abbrev pub not_authorized : OidcClient → Text → Text
not_authorized client grant =
    str "client '"
    ++ (client.client_id ++ (str "' is not authorized to use grant_type '" ++ (grant ++ str "'")))

-- The last two tests: PKCE, of the code's challenge and the verifier of the form.
unfoldable pub check_pkce :
    {State : Type 0} → Host State → AuthCode → Option Text → Result (Unit {0})
check_pkce host auth_code none =
    if is_empty auth_code.code_challenge
    then err (str "PKCE required: authorization code was issued without a code_challenge")
    else err (str "missing code_verifier (PKCE required)")
check_pkce host auth_code (some verifier) =
    if is_empty auth_code.code_challenge
    then err (str "PKCE required: authorization code was issued without a code_challenge")
    else if not (verify_pkce host verifier auth_code.code_challenge auth_code.code_challenge_method)
    then err (str "PKCE verification failed")
    else ok tt

-- The tests between the reading of the code and its consumption.
unfoldable pub check_auth_code :
    {State : Type 0}
    → Host State
    → OidcClient
    → (redirect_uri : Text) → (code_verifier : Option Text) → (now : ℕ) → AuthCode
    → Result (Unit {0})
unfolding check_pkce
check_auth_code host client redirect_uri code_verifier now auth_code =
    if not (auth_code.client_id == client.client_id)
    then err (str "client_id mismatch")
    else if not (auth_code.redirect_uri == redirect_uri)
    then err (str "redirect_uri mismatch")
    else if ltb auth_code.expires_at now
    then err (str "authorization code expired")
    else if auth_code.pending_consent
    then err (str "authorization code requires user consent before redemption")
    else check_pkce host auth_code code_verifier

-- The code's `auth_time`, or the clock where it has none.
unfoldable pub auth_time_or : ℕ → ℕ → ℕ
auth_time_or now auth_time = if auth_time == 0 then now else auth_time

abbrev nonempty : Text → Option Text
nonempty [] = none
nonempty (c ∷ t) = some (c ∷ t)

module _ {Payload : Type 0} (kv : Kv Payload) (wire : Wire Payload) (host : Host kv.State) where
  -- What the tokens of the code claim.
  unfoldable pub code_claims : Request → AuthCode → User → kv.State → ClaimInput
  unfolding auth_time_or
  code_claims req auth_code user s = record {
    issuer = req.issuer;
    user = user;
    client_id = req.client.client_id;
    nonce = nonempty auth_code.nonce;
    auth_time = auth_time_or (req.now 1) auth_code.auth_time;
    amr = auth_code.amr;
    acr = auth_code.acr;
    scope = auth_code.scope;
    requested_id_token_claims = auth_code.requested_id_token_claims;
    requested_userinfo_claims = auth_code.requested_userinfo_claims;
    extra_claims = auth_code.extra_claims;
    dpop_jkt = req.dpop_jkt;
    sid = auth_code.sid;
    now = req.now 2;
    memberships = memberships_of kv wire user s;
  }

  -- The first refresh token of a family.
  unfoldable pub first_refresh : Request → AuthCode → User → RefreshEntry
  unfolding auth_time_or
  first_refresh req auth_code user = record {
    user_id = user.id;
    client_id = req.client.client_id;
    expires_at = req.now 3 + 86400 * 30;
    scope = auth_code.scope;
    version = req.now 3;
    auth_time = auth_time_or (req.now 1) auth_code.auth_time;
    amr = auth_code.amr;
    acr = auth_code.acr;
    requested_id_token_claims = auth_code.requested_id_token_claims;
    requested_userinfo_claims = auth_code.requested_userinfo_claims;
    issued_at = req.now 3;
    sid = auth_code.sid;
    dpop_jkt = req.dpop_jkt;
  }

  -- Whether a refresh token is issued is the first argument.
  unfoldable pub issue_refresh_if : Bool → Request → AuthCode → User → Action kv.State (Option Text)
  unfolding first_refresh
  issue_refresh_if true req auth_code user =
      save_refresh_token kv wire (hex_sha256 host req.random) (first_refresh req auth_code user)
      >> pure (some req.random)
  issue_refresh_if false req auth_code user = pure none

  unfoldable pub issue_refresh : Request → AuthCode → User → Action kv.State (Option Text)
  unfolding issue_refresh_if has_offline_access
  issue_refresh req auth_code user =
      issue_refresh_if (has_offline_access auth_code.scope) req auth_code user

  -- The handler behind the consumption of the code.
  unfoldable pub issue_for_code : Request → Text → AuthCode → Action kv.State Response
  unfolding code_claims issue_refresh
  issue_for_code req code auth_code = do
    user ← require_user kv wire auth_code.user_id
    guard (user.status == str "active") (str "user account is not active")
    claims ← reads (λ s. ok (build_claims (code_claims req auth_code user s)))
    signed ← sign_tokens host claims req.client
    ignore (delete_auth_code kv wire code)
    refresh_token ← issue_refresh req auth_code user
    pure (user_response req.dpop_jkt signed auth_code.scope refresh_token)

  -- The handler behind the reading of the code.
  unfoldable pub redeem_code : Request → Text → Text → AuthCode × ℕ → Action kv.State Response
  unfolding issue_for_code check_auth_code
  redeem_code req code redirect_uri (auth_code, revision) = do
    lift (
        check_auth_code host req.client redirect_uri (form_value req.form (str "code_verifier"))
          (req.now 0) auth_code)
    map_err (λ _. str "authorization code already consumed")
        (consume_auth_code kv wire code revision)
    issue_for_code req code auth_code

  unfoldable pub handle_code_exchange : Request → Action kv.State Response
  unfolding redeem_code
  handle_code_exchange req = do
    code ← lift (ok_or (form_value req.form (str "code")) (str "missing code"))
    redirect_uri ←
        lift (ok_or (form_value req.form (str "redirect_uri")) (str "missing redirect_uri"))
    guard (contains req.client.grant_types (str "authorization_code"))
        (not_authorized req.client (str "authorization_code"))
    read ← reads (λ s. required (str "invalid or expired code") (get_auth_code_cas kv wire code s))
    redeem_code req code redirect_uri read
