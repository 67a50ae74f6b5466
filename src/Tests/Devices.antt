-- ===== src/Tests/Devices.antt =====
-- A concrete confirmation of a device that waits for one.
use jetauth.Prelude.{str, ℕ, none, [], ◌∷◌}
use jetauth.Json.{Json, text, obj, field, end}
use jetauth.Kv.Memory.{Table}
use jetauth.Store.Types.{DeviceCode}
use jetauth.Util.Query.{Form}
use jetauth.Tests.{Value, device_value, cached_value}

abbrev waiting_device : DeviceCode
waiting_device = record {
  device_code = str "d1";
  user_code = str "ABCDEFGH";
  client_id = str "tv";
  scope = str "openid";
  expires_at = 400;
  status = str "pending";
  user_id = none;
  sid = none;
}

abbrev approval : Json
approval =
    obj (field (str "device_code") (text (str "d1")) (field (str "user_id") (text (str "u1")) end))

abbrev asked : Table Value
asked =
    (str "sessions:device:d1", (device_value waiting_device, 1))
    ∷ (str "cache:device_approval:t1", (cached_value (approval, 400), 2))
    ∷ []

abbrev confirmation : Form
confirmation = (str "approval_token", str "t1") ∷ (str "decision", str "approve") ∷ []

abbrev confirm_now : ℕ → ℕ
confirm_now place = 120
