-- ===== src/Device/Start.antt =====
-- `start` of oidc-gateway/src/device.rs: a device asks for its codes.
use jetauth.Prelude.{
  Text, str, contains, Result, ok, err, ok_or, ℕ, Bool, true, false, not, Option, none, some, ◌+◌,
  ◌&&◌, ◌||◌, ◌++◌, ◌==◌, text_eq,
}
use jetauth.Kv.{Kv}
use jetauth.Action.{Action, pure, guard, lift, outcome, ignore, ◌>>=◌, ◌>>◌}
use jetauth.Abuse.{check_rate}
use jetauth.Store.Types.{OidcClient, DeviceCode}
use jetauth.Store.Wire.{Wire}
use jetauth.Store.Clients.{admin_id, ensure_admin_client}
use jetauth.Store.Devices.{save_device_code}
use jetauth.Util.Percent.{percent_encode}
use jetauth.Util.Query.{Form, form_value, parse_form}
use jetauth.Token.Endpoint.{device_grant}
use jetauth.ClientAuth.{AuthenticatedClient, Verifier, parse_basic_auth}
use jetauth.ClientAuth.Methods.{authenticate_client}
use jetauth.Device.Answers.{Answer, json_error, started, without, is_hyphen}

-- What the handler is given: the derived equality of clients, the clock at the places that read it,
-- and the random codes, where the user code is in its display form.
pub record Draws : Type 0 where
  pub same_client : OidcClient → OidcClient → Bool
  pub client_now : ℕ → ℕ
  pub rate_now : ℕ
  pub now : ℕ
  pub device_code : Text
  pub user_code_display : Text

abbrev pub id_of : Option (Text × Text) → Option Text
id_of none = none
id_of (some (id, secret)) = some id

abbrev pub or_basic : Option Text → Option (Text × Text) → Option Text
or_basic none basic = id_of basic
or_basic (some id) basic = some id

abbrev pub scope_or_default : Option Text → Text
scope_or_default none = str "openid email"
scope_or_default (some scope) = scope

abbrev pub has_some : {A : Type 0} → Option A → Bool
has_some none = false
has_some (some a) = true

abbrev pub other_than_none : Option Text → Bool
other_than_none none = false
other_than_none (some m) = not (m == str "none")

-- A client with a secret, with keys, or with a method of its own, that has presented nothing.
unfoldable pub is_bare : AuthenticatedClient → Bool
is_bare auth =
    (has_some auth.client.client_secret
      || has_some auth.client.jwks
      || other_than_none auth.client.token_endpoint_auth_method)
    && auth.auth_method == str "none"

abbrev pub too_many : Answer
too_many =
    json_error 429 (str "rate_limit_exceeded")
      (str "too many device authorization requests. please try again later.")

abbrev pub unauthenticated : Text
unauthenticated = str "client authentication failed"

unfoldable pub new_device_code : Draws → OidcClient → (scope : Text) → DeviceCode
unfolding without
new_device_code draws client scope = record {
  device_code = draws.device_code;
  user_code = without is_hyphen draws.user_code_display;
  client_id = client.client_id;
  scope = scope;
  expires_at = draws.now + 300;
  status = str "pending";
  user_id = none;
  sid = none;
}

module _ {Payload : Type 0} (kv : Kv Payload) (wire : Wire Payload) (verifier : Verifier)
    (draws : Draws) (issuer : Text) where
  abbrev pub answer_started : Answer
  answer_started =
      started draws.device_code draws.user_code_display (issuer ++ str "/device")
        (issuer ++ (str "/device?user_code=" ++ percent_encode draws.user_code_display)) 300 5

  -- Behind the client's authentication.
  unfoldable pub start_for : (scope : Text) → AuthenticatedClient → Action kv.State Answer
  unfolding is_bare new_device_code save_device_code percent_encode
  start_for scope auth = do
    guard (not (is_bare auth)) unauthenticated
    guard (contains auth.client.grant_types device_grant) (
        str "client '"
        ++ (auth.client.client_id
            ++ str "' is not authorized to use the device authorization grant"))
    save_device_code kv wire (new_device_code draws auth.client scope)
    pure answer_started

  abbrev ensure_if : Bool → Action kv.State (Unit {0})
  ensure_if false = pure tt
  ensure_if true = ignore (ensure_admin_client kv wire draws.same_client issuer)

  abbrev or_unauthenticated : {A : Type 0} → Result A → Result A
  or_unauthenticated (ok a) = ok a
  or_unauthenticated (err e) = err unauthenticated

  abbrev authenticated : Form → (auth_header : Option Text) → Action kv.State AuthenticatedClient
  authenticated form auth_header s =
      let out =
        authenticate_client kv wire verifier draws.client_now form auth_header issuer
          (str "/device_authorization") s in
      (or_unauthenticated out.0, out.1)

  abbrev start_allowed :
      Form → (auth_header : Option Text) → (client_id scope : Text) → Action kv.State Answer
  start_allowed form auth_header client_id scope =
      ensure_if (client_id == admin_id) >> (authenticated form auth_header >>= start_for scope)

  -- The limiter fails closed.
  abbrev pub start_limited : Result (Bool × ℕ) → Action kv.State Answer → Action kv.State Answer
  start_limited (ok (true, _)) m s = m s
  start_limited (ok (false, _)) m s = (ok too_many, s)
  start_limited (err e) m s = (ok too_many, s)

  unfoldable pub start : (body : Text) → (auth_header : Option Text) → Action kv.State Answer
  unfolding parse_form parse_basic_auth check_rate ensure_admin_client authenticate_client start_for
  start body auth_header = do
    client_id ← lift (
        ok_or
          (or_basic (form_value (parse_form body) (str "client_id"))
            (parse_basic_auth verifier.base64_decode auth_header))
          (str "missing client_id"))
    rate ←
        outcome
          (check_rate kv wire draws.rate_now (str "device_authorization:" ++ client_id) 20 3600)
    start_limited rate (
        start_allowed (parse_form body) auth_header client_id
          (scope_or_default (form_value (parse_form body) (str "scope"))))
