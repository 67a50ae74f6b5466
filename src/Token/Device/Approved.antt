-- ===== src/Token/Device/Approved.antt =====
-- What a token response of `handle_device_code` of oidc-gateway/src/token.rs rests on.
use jetauth.Prelude.{Text, str, ok, ℕ, true, some, ◌≤◌, ◌≡◌, ◌++◌, text_eq}
use jetauth.Kv.{Kv}
use jetauth.Action.{Action}
use jetauth.Util.Query.{form_value}
use jetauth.Store.Types.{User, DeviceCode}
use jetauth.Store.Wire.{Wire}
use jetauth.Store.Devices.{get_device_code_cas, consume_device_code_cas}
use jetauth.Abuse.{check_rate}
use jetauth.Token.Types.{Host, Request}

module _ {Payload : Type 0} (kv : Kv Payload) (wire : Wire Payload) (host : Host kv.State) where
  -- The device code of the request, behind the limiter, and what the handler does with it.
  pub record Approves (req : Request) (s : kv.State) : Type 0 where
    pub device_code : Text
    pub remaining : ℕ
    pub has_code : form_value req.form (str "device_code") ≡ some device_code
    pub allowed :
        (check_rate kv wire (req.now 0) (str "device_poll:" ++ device_code) 1 5 s).0
        ≡ ok (true, remaining)
    pub dc : DeviceCode
    pub revision : ℕ
    pub stored :
        get_device_code_cas kv wire device_code
          (check_rate kv wire (req.now 0) (str "device_poll:" ++ device_code) 1 5 s).1
        ≡ ok (some (dc, revision))
    pub same_client : dc.client_id ≡ req.client.client_id
    pub live : req.now 1 ≤ dc.expires_at
    pub approved : dc.status ≡ str "approved"
    pub consumed :
        (consume_device_code_cas kv wire device_code revision
          (check_rate kv wire (req.now 0) (str "device_poll:" ++ device_code) 1 5 s).1).0
        ≡ ok tt
    pub user_id : Text
    pub has_user_id : dc.user_id ≡ some user_id
    pub user : User
    pub active : user.status ≡ str "active"
