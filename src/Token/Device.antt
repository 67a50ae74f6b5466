-- ===== src/Token/Device.antt =====
-- The device grant: `handle_device_code` of oidc-gateway/src/token.rs.
pub mod Approved
use jetauth.Prelude.{
  Text, str, ltb, Result, ok, err, ok_or, ℕ, Bool, true, false, not, Option, none, some, [], ◌+◌,
  ◌*◌, ◌∷◌, ◌++◌, ◌==◌, text_eq,
}
use jetauth.Kv.{Kv}
use jetauth.Action.{Action, pure, lift, reads, ignore, outcome, if_then_return, ◌>>=◌, ◌>>◌}
use jetauth.Util.Query.{form_value}
use jetauth.Store.Types.{User, DeviceCode, RefreshEntry}
use jetauth.Store.Wire.{Wire}
use jetauth.Store.Devices.{get_device_code_cas, consume_device_code_cas, delete_device_code}
use jetauth.Store.Refresh.{save_refresh_token}
use jetauth.Abuse.{check_rate}
use jetauth.Token.Types.{Response, token_error, Host, Request, hex_sha256}
use jetauth.Token.Claims.{ClaimInput, build_claims}
use jetauth.Token.Issue.{
  has_offline_access, memberships_of, require_user, sign_tokens, user_response,
}

abbrev pub is_ok : {A : Type 0} → Result A → Bool
is_ok (ok a) = true
is_ok (err e) = false

abbrev pub refusal : Text → Text → Response
refusal error description = token_error 400 error description

module _ {Payload : Type 0} (kv : Kv Payload) (wire : Wire Payload) (host : Host kv.State) where
  unfoldable pub device_claims : Request → DeviceCode → User → kv.State → ClaimInput
  device_claims req dc user s = record {
    issuer = req.issuer;
    user = user;
    client_id = req.client.client_id;
    nonce = none;
    auth_time = req.now 2;
    amr = str "device" ∷ [];
    acr = none;
    scope = dc.scope;
    requested_id_token_claims = [];
    requested_userinfo_claims = [];
    extra_claims = [];
    dpop_jkt = req.dpop_jkt;
    sid = dc.sid;
    now = req.now 3;
    memberships = memberships_of kv wire user s;
  }

  unfoldable pub device_refresh : Request → DeviceCode → User → RefreshEntry
  device_refresh req dc user = record {
    user_id = user.id;
    client_id = req.client.client_id;
    expires_at = req.now 2 + 86400 * 30;
    scope = dc.scope;
    version = req.now 2;
    auth_time = req.now 2;
    amr = str "device" ∷ [];
    acr = none;
    requested_id_token_claims = [];
    requested_userinfo_claims = [];
    issued_at = req.now 2;
    sid = dc.sid;
    dpop_jkt = req.dpop_jkt;
  }

  unfoldable pub device_refresh_if :
      Bool → Request → DeviceCode → User → Action kv.State (Option Text)
  unfolding device_refresh
  device_refresh_if true req dc user =
      save_refresh_token kv wire (hex_sha256 host req.random) (device_refresh req dc user)
      >> pure (some req.random)
  device_refresh_if false req dc user = pure none

  -- The tokens for an active user.
  unfoldable pub issue_for_device : Request → DeviceCode → User → Action kv.State Response
  unfolding device_claims device_refresh_if
  issue_for_device req dc user = do
    claims ← reads (λ s. ok (build_claims (device_claims req dc user s)))
    signed ← sign_tokens host claims req.client
    refresh_token ← device_refresh_if (has_offline_access dc.scope) req dc user
    pure (user_response req.dpop_jkt signed dc.scope refresh_token)

  -- The arm of an approved code.
  unfoldable pub redeem_device : Request → Text → DeviceCode → ℕ → Action kv.State Response
  unfolding issue_for_device
  redeem_device req device_code dc revision = do
    consumed ← outcome (consume_device_code_cas kv wire device_code revision)
    if_then_return (not (is_ok consumed))
        (pure (refusal (str "invalid_grant") (str "device code already consumed")))
        (do
          user_id ← lift (ok_or dc.user_id (str "approved device code missing user_id"))
          user ← require_user kv wire user_id
          if_then_return (not (user.status == str "active"))
              (pure (refusal (str "access_denied") (str "account not active")))
              (issue_for_device req dc user))

  unfoldable pub by_status : Request → Text → DeviceCode → ℕ → Action kv.State Response
  unfolding redeem_device
  by_status req device_code dc revision =
      if_then_return (dc.status == str "pending")
        (pure (refusal (str "authorization_pending") (str "user has not yet approved the device")))
        (if_then_return (dc.status == str "denied")
          (ignore (delete_device_code kv wire device_code)
            >> pure (refusal (str "access_denied") (str "user denied the device request")))
          (if_then_return (not (dc.status == str "approved"))
            (pure (refusal (str "invalid_grant") (str "unknown device code status")))
            (redeem_device req device_code dc revision)))

  unfoldable pub poll : Request → Text → Option (DeviceCode × ℕ) → Action kv.State Response
  unfolding by_status
  poll req device_code none =
      pure (refusal (str "expired_token") (str "device code not found or expired"))
  poll req device_code (some (dc, revision)) =
      if_then_return (not (dc.client_id == req.client.client_id))
        (pure (refusal (str "invalid_grant") (str "client_id mismatch")))
        (if_then_return (ltb dc.expires_at (req.now 1))
          (ignore (delete_device_code kv wire device_code)
            >> pure (refusal (str "expired_token") (str "device code has expired")))
          (by_status req device_code dc revision))

  -- One poll in five seconds; no answer of the limiter is a refusal.
  unfoldable pub throttle : Result (Bool × ℕ) → Action kv.State Response → Action kv.State Response
  throttle (ok (true, _)) m = m
  throttle (ok (false, _)) m =
      pure (refusal (str "slow_down") (str "polling too fast, wait 5 seconds"))
  throttle (err _) m = pure (
      token_error 429 (str "invalid_request")
        (str "rate limiter unavailable; please try again later"))

  unfoldable pub handle_device_code : Request → Action kv.State Response
  unfolding poll throttle
  handle_device_code req = do
    device_code ← lift (ok_or (form_value req.form (str "device_code")) (str "missing device_code"))
    rate ← outcome (check_rate kv wire (req.now 0) (str "device_poll:" ++ device_code) 1 5)
    throttle rate
        (do read ← reads (get_device_code_cas kv wire device_code); poll req device_code read)
