-- ===== src/Token/Rotation.antt =====
-- The refresh token grant: `handle_refresh` of oidc-gateway/src/token.rs. The metrics and the
-- notifications of other servers, which leave the store as it is, are left out.
pub mod Family
pub mod Success
pub mod Replay
pub mod Detection
use jetauth.Prelude.{
  Text, str, contains, ltb, Result, ok, err, ok_or, ℕ, min, Bool, true, false, Option, none, some,
  [], ◌+◌, ◌*◌, ◌%◌, ◌^◌, ◌∷◌, ◌++◌, ◌==◌, if◌then◌else◌, text_eq, nat_eq,
}
use jetauth.Kv.{Kv}
use jetauth.Action.{Action, pure, fail, guard, lift, reads, ignore, map_err, ◌>>=◌, ◌>>◌}
use jetauth.Util.Query.{form_value}
use jetauth.Store.Types.{User, RefreshEntry}
use jetauth.Store.Wire.{Wire}
use jetauth.Store.Refresh.{
  save_refresh_token, get_refresh_token_cas, consume_refresh_token, mark_refresh_consumed,
  get_consumed_refresh, delete_refresh_token, revoke_user_sessions, delete_user_refresh_tokens,
}
use jetauth.Token.Types.{Response, Host, Request, hex_sha256}
use jetauth.Token.Claims.{ClaimInput, build_claims}
use jetauth.Token.Issue.{memberships_of, require_user, sign_tokens, user_response}
use jetauth.Token.Code.{auth_time_or, not_authorized}

-- `refresh_absolute_max_secs`, given the number of the configuration if there is one.
unfoldable pub refresh_absolute_max_secs : Option ℕ → ℕ
refresh_absolute_max_secs none = 86400 * 90
refresh_absolute_max_secs (some n) = n

-- A token that was issued with a DPoP proof stays bound to that key.
unfoldable pub check_binding : Option Text → Option Text → Result (Unit {0})
check_binding none proof = ok tt
check_binding (some expected) (some jkt) =
    if jkt == expected
    then ok tt
    else err (str "DPoP proof key does not match refresh token binding")
check_binding (some expected) none =
    err (str "DPoP proof required for refresh token bound to a DPoP key")

-- When the family of the token was first issued.
unfoldable pub family_issued_at : ℕ → RefreshEntry → ℕ
family_issued_at now entry = if ltb 0 entry.issued_at then entry.issued_at else now

-- The end of the family's life, a sum of 64-bit numbers.
unfoldable pub family_end : ℕ → ℕ → RefreshEntry → ℕ
unfolding family_issued_at
family_end absolute_max now entry = (family_issued_at now entry + absolute_max) % 2 ^ 64

-- The entry of the token that follows.
unfoldable pub rotated : ℕ → Request → RefreshEntry → RefreshEntry
unfolding family_end auth_time_or
rotated absolute_max req entry = record {
  user_id = entry.user_id;
  client_id = req.client.client_id;
  expires_at = min ((req.now 0 + 86400 * 30) % 2 ^ 64) (family_end absolute_max (req.now 0) entry);
  scope = entry.scope;
  version = entry.version;
  auth_time = auth_time_or (req.now 1) entry.auth_time;
  amr = entry.amr;
  acr = entry.acr;
  requested_id_token_claims = entry.requested_id_token_claims;
  requested_userinfo_claims = entry.requested_userinfo_claims;
  issued_at = family_issued_at (req.now 0) entry;
  sid = entry.sid;
  dpop_jkt = entry.dpop_jkt;
}

-- The dash of the message is U+2014.
abbrev pub replay_detected : Text
replay_detected =
    str "refresh token replay detected " ++ (226 ∷ 128 ∷ 148 ∷ str " all sessions revoked")

module _ {Payload : Type 0} (kv : Kv Payload) (wire : Wire Payload) where
  -- `if test { delete; return Err(e) }`
  unfoldable pub expire_if : Bool → Text → Text → Action kv.State (Unit {0})
  expire_if true e hash = ignore (delete_refresh_token kv wire hash) >> fail e
  expire_if false e hash = pure tt

  -- An inactive user loses every refresh token.
  unfoldable pub require_active : Bool → Text → ℕ → Action kv.State (Unit {0})
  require_active true user_id now = pure tt
  require_active false user_id now =
      ignore (delete_user_refresh_tokens kv wire user_id now)
      >> fail (str "user account is not active")

  -- The branch of a token that is not there: the user of one that was consumed before loses every
  -- session.
  unfoldable pub reject_missing : Request → Result (Option Text) → Action kv.State Response
  reject_missing req (ok (some user_id)) = do
    ignore (revoke_user_sessions kv wire user_id (req.now 4))
    ignore (delete_user_refresh_tokens kv wire user_id (req.now 5))
    fail replay_detected
  reject_missing req (ok none) = fail (str "invalid refresh token")
  reject_missing req (err _) = fail (str "invalid refresh token")

  unfoldable pub refresh_claims : Request → RefreshEntry → User → kv.State → ClaimInput
  unfolding auth_time_or
  refresh_claims req entry user s = record {
    issuer = req.issuer;
    user = user;
    client_id = req.client.client_id;
    nonce = none;
    auth_time = auth_time_or (req.now 1) entry.auth_time;
    amr = entry.amr;
    acr = entry.acr;
    scope = entry.scope;
    requested_id_token_claims = entry.requested_id_token_claims;
    requested_userinfo_claims = entry.requested_userinfo_claims;
    extra_claims = [];
    dpop_jkt = req.dpop_jkt;
    sid = entry.sid;
    now = req.now 2;
    memberships = memberships_of kv wire user s;
  }

module _ {Payload : Type 0} (kv : Kv Payload) (wire : Wire Payload) (host : Host kv.State)
    (absolute_max : ℕ) where
  -- The handler behind the consumption of the token.
  unfoldable pub reissue : Request → Text → RefreshEntry → Action kv.State Response
  unfolding require_active refresh_claims rotated
  reissue req hash entry = do
    user ← require_user kv wire entry.user_id
    require_active kv wire (user.status == str "active") entry.user_id (req.now 3)
    claims ← reads (λ s. ok (build_claims (refresh_claims kv wire req entry user s)))
    signed ← sign_tokens host claims req.client
    save_refresh_token kv wire (hex_sha256 host req.random) (rotated absolute_max req entry)
    mark_refresh_consumed kv wire hash entry.user_id
    ignore (delete_refresh_token kv wire hash)
    pure (user_response req.dpop_jkt signed entry.scope (some req.random))

  -- The branch of a token that is there.
  unfoldable pub rotate : Request → Text → RefreshEntry → ℕ → Action kv.State Response
  unfolding reissue expire_if check_binding family_end
  rotate req hash entry revision = do
    guard (entry.client_id == req.client.client_id) (str "client_id mismatch")
    lift (check_binding entry.dpop_jkt req.dpop_jkt)
    expire_if kv wire (ltb entry.expires_at (req.now 0)) (str "refresh token expired") hash
    expire_if kv wire (ltb (family_end absolute_max (req.now 0) entry) (req.now 0))
        (str "refresh token family has exceeded maximum lifetime") hash
    map_err (λ _. str "refresh token already consumed")
        (consume_refresh_token kv wire hash revision entry.user_id)
    reissue req hash entry

  unfoldable pub rotate_or_reject :
      Request → Text → Option (RefreshEntry × ℕ) → Action kv.State Response
  unfolding rotate reject_missing
  rotate_or_reject req hash (some (entry, revision)) s = rotate req hash entry revision s
  rotate_or_reject req hash none s =
      reject_missing kv wire req (get_consumed_refresh kv wire hash s) s

  unfoldable pub handle_refresh : Request → Action kv.State Response
  unfolding rotate_or_reject
  handle_refresh req = do
    refresh_token ←
        lift (ok_or (form_value req.form (str "refresh_token")) (str "missing refresh_token"))
    guard (contains req.client.grant_types (str "refresh_token"))
        (not_authorized req.client (str "refresh_token"))
    read ← reads (get_refresh_token_cas kv wire (hex_sha256 host refresh_token))
    rotate_or_reject req (hex_sha256 host refresh_token) read
