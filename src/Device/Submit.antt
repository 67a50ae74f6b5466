-- ===== src/Device/Submit.antt =====
-- `submit` of oidc-gateway/src/device.rs: a user enters a user code, or confirms a device.
use jetauth.Prelude.{
  Text, str, ltb, Result, ok, err, ok_or, ℕ, Bool, true, false, not, Option, none, some, [], map,
  ◌++◌, ◌==◌, if◌then◌else◌, text_eq,
}
use jetauth.Kv.{Kv}
use jetauth.Action.{Action, pure, lift, reads, outcome, ignore, ◌>>=◌, ◌>>◌}
use jetauth.Abuse.{check_rate, trim_start, trim_end}
use jetauth.Store.Types.{DeviceCode}
use jetauth.Store.Records.{AuthSession}
use jetauth.Store.Wire.{Wire}
use jetauth.Store.Devices.{upper, get_device_code_by_user_code, update_device_code_status}
use jetauth.Store.OneTime.{save_auth_session}
use jetauth.Util.Query.{Form, form_value, parse_form}
use jetauth.Token.Issue.{required}
use jetauth.Device.Answers.{Answer, login_redirect, page_error, without, is_separator}
use jetauth.Device.Confirm.{handle_confirmation}

-- The clock at the places that read it, and the random texts.
pub record Draws : Type 0 where
  pub confirm_now : ℕ → ℕ
  pub rate_now : ℕ
  pub now : ℕ → ℕ
  pub session_id : Text
  pub sid : Text

-- A user code as it was typed, of ASCII characters.
unfoldable pub canonical_code : Text → Text
unfolding trim_start trim_end upper without
canonical_code typed = without is_separator (map upper (trim_end (trim_start typed)))

-- The session of the login that follows; it carries the device code.
unfoldable pub device_session : Draws → (issuer : Text) → DeviceCode → AuthSession
device_session draws issuer dc = record {
  client_id = dc.client_id;
  redirect_uri = issuer ++ str "/device/complete";
  code_challenge = [];
  code_challenge_method = str "device";
  state = dc.device_code;
  scope = dc.scope;
  nonce = [];
  max_age = none;
  acr_values = [];
  requested_id_token_claims = [];
  requested_userinfo_claims = [];
  hinted_user_id = none;
  hinted_email = none;
  created_at = draws.now 1;
  needs_consent = false;
  prompt = none;
  sid = some draws.sid;
}

module _ {Payload : Type 0} (kv : Kv Payload) (wire : Wire Payload) (draws : Draws)
    (issuer : Text) where
  abbrev deny_if : Option DeviceCode → Action kv.State (Unit {0})
  deny_if none s = (ok tt, s)
  deny_if (some dc) s =
      if dc.status == str "pending"
      then ignore
          (update_device_code_status kv wire (draws.now 2) dc.device_code (str "denied") none none)
          s
      else (ok tt, s)

  -- Past the limit, the device's request is denied.
  unfoldable pub lock_code : (user_code : Text) → Action kv.State Answer
  unfolding get_device_code_by_user_code update_device_code_status
  lock_code user_code = do
    found ← reads (get_device_code_by_user_code kv wire user_code)
    deny_if found
    pure (page_error (str "Too many attempts. Please restart the sign-in on your device."))

  abbrev pub begin_login : DeviceCode → Action kv.State Answer
  begin_login dc s =
      if ltb dc.expires_at (draws.now 0)
      then (ok (page_error (str "Code has expired. Please restart on your device.")), s)
      else if not (dc.status == str "pending")
      then (ok (page_error (str "This code has already been used.")), s)
      else (save_auth_session kv wire draws.session_id (device_session draws issuer dc)
            >> pure (login_redirect draws.session_id))
          s

  unfoldable pub enter_code : (user_code : Text) → Action kv.State Answer
  unfolding get_device_code_by_user_code save_auth_session device_session
  enter_code user_code = do
    dc ← reads (λ s.
        required (str "invalid or expired user code")
          (get_device_code_by_user_code kv wire user_code s))
    begin_login dc

  -- What the limiter says: it fails closed.
  abbrev pub by_rate : (user_code : Text) → Result (Bool × ℕ) → Action kv.State Answer
  by_rate user_code (ok (true, _)) s = enter_code user_code s
  by_rate user_code (ok (false, _)) s = lock_code user_code s
  by_rate user_code (err e) s =
      (ok (page_error (str "Too many attempts. Please wait and try again.")), s)

  abbrev limited_code : (user_code : Text) → Action kv.State Answer
  limited_code user_code = do
    rate ← outcome (check_rate kv wire draws.rate_now (str "device_user_code:" ++ user_code) 5 900)
    by_rate user_code rate

  abbrev by_form : Form → Option Text → Action kv.State Answer
  by_form form (some approval_token) s = handle_confirmation kv wire draws.confirm_now form s
  by_form form none s =
      (lift (ok_or (form_value form (str "user_code")) (str "missing user_code"))
          >>= (λ typed. limited_code (canonical_code typed)))
        s

  unfoldable pub submit : (body : Text) → Action kv.State Answer
  unfolding parse_form handle_confirmation canonical_code check_rate enter_code lock_code
  submit body = by_form (parse_form body) (form_value (parse_form body) (str "approval_token"))
