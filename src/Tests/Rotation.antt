-- ===== src/Tests/Rotation.antt =====
-- Concrete requests with a refresh token.
use jetauth.Prelude.{
  str, text_beq, starts_with, contains_text, contains, ltb, ok, refl, true, none, [], arith,
  strip_prefix, split, split_whitespace, words_from, is_whitespace, ◌≤◌, ◌≡◌, ◌⊎◌, ◌∷◌, nat_eq,
  text_eq,
}
use jetauth.Kv.Memory.{Table, find}
use jetauth.Util.Query.{form_value}
use jetauth.Store.Types.{RefreshEntry}
use jetauth.Store.Codes.{consume_auth_code}
use jetauth.Store.Refresh.{
  revoke_user_sessions, is_user_revoked, get_refresh_token_cas, get_consumed_refresh,
  delete_user_refresh_tokens,
}
use jetauth.Store.Refresh.Revocation.{is_user_revoked-revoke_user_sessions}
use jetauth.Tests.{raw_value, Value, user_value, refresh_value, kv, wire, host, user, request}
use jetauth.Token.Types.{Request, Response, tokens, hex_sha256, lower_hex, lower_hex_digit}
use jetauth.Token.Code.{check_auth_code, handle_code_exchange}
use jetauth.Token.Rotation.{check_binding, family_end, rotated, handle_refresh}
use jetauth.Token.Rotation.Family.{Accepts, root, rotation, Family-bounded}
use jetauth.Token.Rotation.Success.{Rotates, handle_refresh-Rotates}
use jetauth.Tests.Tokens.{tokens_issued}

-- A refresh token r1, whose hash is 077231 under the toy hash.
abbrev pub refresh_entry : RefreshEntry
refresh_entry = record {
  user_id = str "u1";
  client_id = str "app";
  expires_at = 400;
  scope = str "openid offline_access";
  version = 50;
  auth_time = 50;
  amr = [];
  acr = none;
  requested_id_token_claims = [];
  requested_userinfo_claims = [];
  issued_at = 50;
  sid = none;
  dpop_jkt = none;
}

abbrev pub offline : Table Value
offline =
    (str "users:user:u1", (user_value user, 1))
    ∷ (str "sessions:refresh:077231", (refresh_value refresh_entry, 2))
    ∷ []

abbrev renewal : Request
renewal = request ((str "refresh_token", str "r1") ∷ [])

renewal_answered : (handle_refresh kv wire host 1000 renewal offline).0 ≡ ok tokens_issued
unfolding handle_refresh revoke_user_sessions jetauth.Store.Access.kv_write jetauth.Kv.Memory.write
    jetauth.Action.◌>>=◌ form_value text_beq contains jetauth.Store.Refresh.get_refresh_token_cas
    jetauth.Store.Access.kv_get_revision jetauth.Kv.Memory.get find hex_sha256
    jetauth.Token.Types.lower_hex jetauth.Store.Refresh.consume_refresh_token
    jetauth.Token.Issue.require_user jetauth.Store.Users.get_user jetauth.Store.Access.kv_get
    jetauth.Token.Issue.sign_tokens jetauth.Json.set_field jetauth.Kv.Memory.insert
    jetauth.Kv.Memory.remove jetauth.Kv.Memory.write_at contains_text is_whitespace split
    split_whitespace starts_with strip_prefix words_from jetauth.Store.Members.collect_tenants
    jetauth.Store.Members.get_membership jetauth.Store.Members.list_user_tenants
    jetauth.Store.Refresh.delete_all jetauth.Store.Refresh.delete_indexed
    jetauth.Store.Refresh.delete_refresh_token jetauth.Store.Refresh.delete_user_refresh_tokens
    jetauth.Store.Refresh.get_consumed_refresh jetauth.Store.Refresh.get_refresh_token
    jetauth.Store.Refresh.kv_get_raw jetauth.Store.Refresh.mark_refresh_consumed
    jetauth.Store.Refresh.save_refresh_token jetauth.Store.Refresh.to_be_bytes
    jetauth.Store.Refresh.unindex jetauth.Token.Claims.access_claims
    jetauth.Token.Claims.add_derived jetauth.Token.Claims.add_derived_profile_claim
    jetauth.Token.Claims.add_extra jetauth.Token.Claims.add_memberships
    jetauth.Token.Claims.add_personal jetauth.Token.Claims.add_role jetauth.Token.Claims.add_session
    jetauth.Token.Claims.build_claims jetauth.Token.Claims.has_email_scope
    jetauth.Token.Claims.has_profile_scope jetauth.Token.Claims.id_claims
    jetauth.Token.Claims.join_words jetauth.Token.Code.auth_time_or
    jetauth.Token.Issue.memberships_of jetauth.Token.Issue.token_type
    jetauth.Token.Issue.user_response check_binding jetauth.Token.Rotation.expire_if family_end
    jetauth.Token.Rotation.family_issued_at jetauth.Token.Rotation.refresh_claims
    jetauth.Token.Rotation.reissue jetauth.Token.Rotation.reject_missing
    jetauth.Token.Rotation.require_active jetauth.Token.Rotation.rotate
    jetauth.Token.Rotation.rotate_or_reject rotated jetauth.Token.Types.compute_at_hash
    jetauth.Token.Types.lower_hex_digit
renewal_answered = refl

handle_refresh-Rotates_example : Rotates kv wire host 1000 renewal offline
handle_refresh-Rotates_example =
    handle_refresh-Rotates kv wire host 1000 renewal offline tokens_issued renewal_answered

accepted : Accepts 1000 renewal refresh_entry
unfolding check_binding family_end
accepted = (refl, tt, omega arith, ground arith)

Family-bounded_example :
    (((rotated 1000 renewal refresh_entry).user_id ≡ str "u1")
      × ((rotated 1000 renewal refresh_entry).client_id ≡ str "app")
      × ((rotated 1000 renewal refresh_entry).scope ≡ str "openid offline_access")
      × ((rotated 1000 renewal refresh_entry).dpop_jkt ≡ none)
      × ((rotated 1000 renewal refresh_entry).issued_at ≡ 50))
    × ((rotated 1000 renewal refresh_entry ≡ refresh_entry)
        ⊎ ((rotated 1000 renewal refresh_entry).expires_at ≤ 1050))
Family-bounded_example =
    Family-bounded 1000 refresh_entry (rotated 1000 renewal refresh_entry) (omega arith)
      (rotation renewal root accepted)

revocation_done : (revoke_user_sessions kv wire (str "u1") 100 offline).0 ≡ ok tt
unfolding revoke_user_sessions jetauth.Store.Access.kv_write jetauth.Kv.Memory.write is_user_revoked
    jetauth.Kv.Memory.get find text_beq jetauth.Store.Refresh.to_be_bytes
revocation_done = refl

revoked_token :
    is_user_revoked kv wire (str "u1") 99 (revoke_user_sessions kv wire (str "u1") 100 offline).1
    ≡ ok true
unfolding revoke_user_sessions is_user_revoked jetauth.Kv.Memory.get find
    jetauth.Store.Access.kv_write jetauth.Kv.Memory.write text_beq jetauth.Store.Refresh.to_be_bytes
    consume_auth_code
revoked_token = refl

is_user_revoked-revoke_user_sessions_example : true ≡ ltb 99 100
is_user_revoked-revoke_user_sessions_example =
    is_user_revoked-revoke_user_sessions kv wire (str "u1") 99 100 offline true (omega arith)
      revocation_done revoked_token

-- The token r1 after its rotation: gone, with the marker of its consumption.
abbrev rotated_away : Table Value
rotated_away =
    (str "users:user:u1", (user_value user, 1))
    ∷ (str "sessions:consumed:077231", (raw_value (str "u1"), 2))
    ∷ []
