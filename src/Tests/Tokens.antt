-- ===== src/Tests/Tokens.antt =====
-- Concrete requests with an authorization code.
use jetauth.Prelude.{
  str, text_beq, starts_with, contains_text, contains, ok, err, ℕ, refl, true, none, some, [],
  arith, strip_prefix, split, split_whitespace, words_from, is_whitespace, ◌≤◌, ◌≡◌, ◌↔◌, ◌∷◌,
  ◌>>=◌, nat_eq, text_eq,
}
use jetauth.Kv.Memory.{Table, find}
use jetauth.Util.Query.{form_value}
use jetauth.Store.Codes.{get_auth_code_cas, consume_auth_code}
use jetauth.Store.Codes.SingleUse
use jetauth.Store.Codes.SingleUse.{System, Run, redeemed-le-one, here, next, read, redeem}
use jetauth.Store.Refresh.{
  revoke_user_sessions, is_user_revoked, get_refresh_token_cas, get_consumed_refresh,
  delete_user_refresh_tokens,
}
use jetauth.Tests.{Value, user_value, code_value, kv, wire, host, client, user, auth_code, request}
use jetauth.Token.Types.{Request, Response, tokens, hex_sha256, lower_hex, lower_hex_digit}
use jetauth.Token.Code.{check_auth_code, handle_code_exchange}
use jetauth.Token.Code.Checks.{IsRedeemable, check_auth_code_iff}
use jetauth.Token.Code.Success.{Redeemed, handle_code_exchange-Redeemed}
use jetauth.Token.Code.Refused.{handle_code_exchange-refused}
use jetauth.Token.Rotation.{replay_detected, check_binding, family_end, rotated, handle_refresh}

abbrev issued : Table Value
issued =
    (str "users:user:u1", (user_value user, 1))
    ∷ (str "sessions:code:c1", (code_value auth_code, 2))
    ∷ []

abbrev exchange : Request
exchange = request (
    (str "code", str "c1")
    ∷ (str "redirect_uri", str "https://app/cb")
    ∷ (str "code_verifier", str "verifier")
    ∷ [])

abbrev pub tokens_issued : Response
tokens_issued = tokens (record {
  access_token = str "signed";
  token_type = str "Bearer";
  expires_in = 3600;
  id_token = some (str "signed id");
  scope = str "openid offline_access";
  refresh_token = some (str "r2");
})

exchange_answered : (handle_code_exchange kv wire host exchange issued).0 ≡ ok tokens_issued
unfolding handle_code_exchange jetauth.Action.◌>>=◌ jetauth.Util.Query.form_value
    jetauth.Prelude.text_beq jetauth.Prelude.contains jetauth.Store.Codes.get_auth_code_cas
    jetauth.Store.Access.kv_get_revision jetauth.Kv.Memory.get jetauth.Kv.Memory.find
    jetauth.Token.Types.verify_pkce jetauth.Store.Codes.consume_auth_code
    jetauth.Store.Access.kv_write jetauth.Kv.Memory.write jetauth.Token.Issue.require_user
    jetauth.Store.Users.get_user jetauth.Store.Access.kv_get jetauth.Token.Issue.sign_tokens
    jetauth.Prelude.split jetauth.Json.set_field jetauth.Kv.Memory.insert jetauth.Kv.Memory.remove
    jetauth.Kv.Memory.write_at jetauth.Prelude.contains_text jetauth.Prelude.is_whitespace
    jetauth.Prelude.split_whitespace jetauth.Prelude.starts_with jetauth.Prelude.strip_prefix
    jetauth.Prelude.words_from jetauth.Store.Codes.delete_auth_code
    jetauth.Store.Members.collect_tenants jetauth.Store.Members.get_membership
    jetauth.Store.Members.list_user_tenants jetauth.Store.Refresh.save_refresh_token
    jetauth.Token.Claims.access_claims jetauth.Token.Claims.add_derived
    jetauth.Token.Claims.add_derived_profile_claim jetauth.Token.Claims.add_extra
    jetauth.Token.Claims.add_memberships jetauth.Token.Claims.add_personal
    jetauth.Token.Claims.add_role jetauth.Token.Claims.add_session jetauth.Token.Claims.build_claims
    jetauth.Token.Claims.has_email_scope jetauth.Token.Claims.has_profile_scope
    jetauth.Token.Claims.id_claims jetauth.Token.Claims.join_words jetauth.Token.Code.auth_time_or
    jetauth.Token.Code.check_auth_code jetauth.Token.Code.check_pkce jetauth.Token.Code.code_claims
    jetauth.Token.Code.first_refresh jetauth.Token.Code.issue_for_code
    jetauth.Token.Code.issue_refresh jetauth.Token.Code.issue_refresh_if
    jetauth.Token.Code.redeem_code jetauth.Token.Issue.has_offline_access
    jetauth.Token.Issue.memberships_of jetauth.Token.Issue.token_type
    jetauth.Token.Issue.user_response jetauth.Token.Types.compute_at_hash
    jetauth.Token.Types.hex_sha256 jetauth.Token.Types.lower_hex jetauth.Token.Types.lower_hex_digit
exchange_answered = refl

handle_code_exchange-Redeemed_example : Redeemed kv wire host exchange issued
handle_code_exchange-Redeemed_example =
    handle_code_exchange-Redeemed kv wire host exchange issued tokens_issued exchange_answered

-- The redirect URI of another client.
abbrev misdirected : Request
misdirected = request ((str "code", str "c1") ∷ (str "redirect_uri", str "https://evil/cb") ∷ [])

may_exchange : contains client.grant_types (str "authorization_code") ≡ true
unfolding contains text_beq
may_exchange = refl

code_stored : get_auth_code_cas kv wire (str "c1") issued ≡ ok (some (auth_code, 2))
unfolding get_auth_code_cas jetauth.Store.Access.kv_get_revision jetauth.Kv.Memory.get find text_beq
    jetauth.Token.Issue.sign_tokens jetauth.Json.set_field jetauth.Kv.Memory.insert
    jetauth.Kv.Memory.remove jetauth.Kv.Memory.write_at contains_text is_whitespace split
    split_whitespace starts_with strip_prefix words_from jetauth.Store.Members.collect_tenants
    jetauth.Store.Members.get_membership jetauth.Store.Members.list_user_tenants
    jetauth.Store.Refresh.delete_all jetauth.Store.Refresh.delete_indexed
    jetauth.Store.Refresh.delete_refresh_token jetauth.Store.Refresh.delete_user_refresh_tokens
    jetauth.Store.Refresh.get_consumed_refresh jetauth.Store.Refresh.get_refresh_token
    jetauth.Store.Refresh.kv_get_raw jetauth.Store.Refresh.mark_refresh_consumed
    revoke_user_sessions jetauth.Store.Refresh.save_refresh_token jetauth.Store.Refresh.to_be_bytes
    jetauth.Store.Refresh.unindex jetauth.Token.Claims.access_claims
    jetauth.Token.Claims.add_derived jetauth.Token.Claims.add_derived_profile_claim
    jetauth.Token.Claims.add_extra jetauth.Token.Claims.add_memberships
    jetauth.Token.Claims.add_personal jetauth.Token.Claims.add_role jetauth.Token.Claims.add_session
    jetauth.Token.Claims.build_claims jetauth.Token.Claims.has_email_scope
    jetauth.Token.Claims.has_profile_scope jetauth.Token.Claims.id_claims
    jetauth.Token.Claims.join_words jetauth.Token.Code.auth_time_or
    jetauth.Token.Issue.memberships_of jetauth.Token.Issue.token_type
    jetauth.Token.Issue.user_response check_binding jetauth.Token.Rotation.expire_if family_end
    jetauth.Token.Rotation.family_issued_at jetauth.Token.Rotation.refresh_claims
    jetauth.Token.Rotation.reissue jetauth.Token.Rotation.reject_missing
    jetauth.Token.Rotation.require_active jetauth.Token.Rotation.rotate
    jetauth.Token.Rotation.rotate_or_reject rotated jetauth.Token.Types.compute_at_hash
    jetauth.Token.Types.lower_hex_digit check_auth_code
code_stored = refl

misdirected_fails :
    check_auth_code host client (str "https://evil/cb") none 100 auth_code
    ≡ err (str "redirect_uri mismatch")
unfolding check_auth_code text_beq jetauth.Token.Issue.sign_tokens jetauth.Json.set_field
    jetauth.Kv.Memory.insert jetauth.Kv.Memory.remove jetauth.Kv.Memory.write_at contains_text
    is_whitespace split split_whitespace starts_with strip_prefix words_from
    jetauth.Store.Members.collect_tenants jetauth.Store.Members.get_membership
    jetauth.Store.Members.list_user_tenants jetauth.Store.Refresh.delete_all
    jetauth.Store.Refresh.delete_indexed jetauth.Store.Refresh.delete_refresh_token
    jetauth.Store.Refresh.delete_user_refresh_tokens jetauth.Store.Refresh.get_consumed_refresh
    jetauth.Store.Refresh.get_refresh_token jetauth.Store.Refresh.kv_get_raw
    jetauth.Store.Refresh.mark_refresh_consumed revoke_user_sessions
    jetauth.Store.Refresh.save_refresh_token jetauth.Store.Refresh.to_be_bytes
    jetauth.Store.Refresh.unindex jetauth.Token.Claims.access_claims
    jetauth.Token.Claims.add_derived jetauth.Token.Claims.add_derived_profile_claim
    jetauth.Token.Claims.add_extra jetauth.Token.Claims.add_memberships
    jetauth.Token.Claims.add_personal jetauth.Token.Claims.add_role jetauth.Token.Claims.add_session
    jetauth.Token.Claims.build_claims jetauth.Token.Claims.has_email_scope
    jetauth.Token.Claims.has_profile_scope jetauth.Token.Claims.id_claims
    jetauth.Token.Claims.join_words jetauth.Token.Code.auth_time_or
    jetauth.Token.Issue.memberships_of jetauth.Token.Issue.token_type
    jetauth.Token.Issue.user_response check_binding jetauth.Token.Rotation.expire_if family_end
    jetauth.Token.Rotation.family_issued_at jetauth.Token.Rotation.refresh_claims
    jetauth.Token.Rotation.reissue jetauth.Token.Rotation.reject_missing
    jetauth.Token.Rotation.require_active jetauth.Token.Rotation.rotate
    jetauth.Token.Rotation.rotate_or_reject rotated jetauth.Token.Types.compute_at_hash
    jetauth.Token.Types.lower_hex_digit jetauth.Store.Access.kv_write jetauth.Kv.Memory.write
    handle_refresh jetauth.Action.◌>>=◌ form_value contains
    jetauth.Store.Refresh.get_refresh_token_cas jetauth.Store.Access.kv_get_revision
    jetauth.Kv.Memory.get find hex_sha256 jetauth.Token.Types.lower_hex
    jetauth.Store.Refresh.consume_refresh_token jetauth.Token.Issue.require_user
    jetauth.Store.Users.get_user jetauth.Store.Access.kv_get
misdirected_fails = refl

has_code : form_value misdirected.form (str "code") ≡ some (str "c1")
unfolding form_value text_beq
has_code = refl

has_redirect_uri : form_value misdirected.form (str "redirect_uri") ≡ some (str "https://evil/cb")
unfolding form_value text_beq
has_redirect_uri = refl

no_verifier : form_value misdirected.form (str "code_verifier") ≡ none
unfolding form_value text_beq
no_verifier = refl

handle_code_exchange-refused_example :
    handle_code_exchange kv wire host misdirected issued
    ≡ (err (str "redirect_uri mismatch"), issued)
handle_code_exchange-refused_example =
    handle_code_exchange-refused kv wire host misdirected issued (str "c1") (str "https://evil/cb")
      auth_code 2 (str "redirect_uri mismatch") has_code has_redirect_uri may_exchange code_stored
      (rw no_verifier misdirected_fails)

check_auth_code_iff_example :
    (check_auth_code host client (str "https://app/cb") (some (str "verifier")) 100 auth_code
      ≡ ok tt)
    ↔ IsRedeemable host client (str "https://app/cb") (some (str "verifier")) 100 auth_code
check_auth_code_iff_example =
    check_auth_code_iff host client (str "https://app/cb") (some (str "verifier")) 100 auth_code

-- One request reads the code and consumes it.
consumption : (consume_auth_code kv wire (str "c1") 2 issued).0 ≡ ok tt
unfolding consume_auth_code jetauth.Store.Access.kv_write jetauth.Kv.Memory.write find text_beq
consumption = refl

code_entry : kv.view issued (str "sessions") (str "code:c1") ≡ some (code_value auth_code, 2)
unfolding find text_beq
code_entry = refl

held : contains {A = ℕ} (2 ∷ []) 2 ≡ true
unfolding contains
held = refl

abbrev read_state : System kv wire (str "c1")
read_state = record { store = issued; held = 2 ∷ []; redeemed = 0 }

consumption-Run :
    Run kv wire (str "c1") (SingleUse.issued kv wire (str "c1") issued) (record read_state {
      store = (consume_auth_code kv wire (str "c1") 2 issued).1;
      redeemed = 1;
    })
consumption-Run =
    next {y = read_state} (next here (read auth_code 2 code_stored)) (redeem 2 held consumption)

redeemed-le-one_example : 1 ≤ 1
redeemed-le-one_example =
    redeemed-le-one kv wire (str "c1") issued (code_value auth_code) 2 code_entry (omega arith)
      consumption-Run
