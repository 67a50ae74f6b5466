-- ===== src/Store/Devices.antt =====
-- Device codes: "Device Authorization Grant" of oidc-gateway/src/store.rs.
pub mod Status
use jetauth.Prelude.{
  Text, str, leb, Result, ok, err, ℕ, max, Option, none, some, map, ◌-◌, ◌&&◌, ◌++◌, ◌==◌,
  if◌then◌else◌, text_eq,
}
use jetauth.Kv.{Kv, put, cas, cas_delete, delete}
use jetauth.Action.{Action, pure, reads, ◌>>=◌, ◌>>◌}
use jetauth.Store.Types.{DeviceCode}
use jetauth.Store.Wire.{Wire}
use jetauth.Store.Refresh.{kv_get_raw}
use jetauth.Util.Utf8.{from_utf8_lossy}
use jetauth.Store.Access.{kv_get, kv_get_revision, kv_write, sessions}

abbrev pub ttl_device_code : ℕ
ttl_device_code = 300

abbrev pub device_key : Text → Text
device_key device_code = str "device:" ++ device_code

-- `c.to_ascii_uppercase()`: the user codes are ASCII.
unfoldable pub upper : ℕ → ℕ
upper c = if leb b'a' c && leb c b'z' then c - 32 else c

abbrev pub user_code_key : Text → Text
user_code_key user_code = str "device_user_code:" ++ map upper user_code

-- The entry with a status, a user and, where one is given, a session.
unfoldable pub with_status : Text → Option Text → Option Text → DeviceCode → DeviceCode
with_status status user_id none dc = record dc { status = status; user_id = user_id }
with_status status user_id (some sid) dc = record dc {
  status = status;
  user_id = user_id;
  sid = some sid;
}

module _ {Payload : Type 0} (kv : Kv Payload) (wire : Wire Payload) where
  unfoldable pub save_device_code : DeviceCode → Action kv.State (Unit {0})
  unfolding upper
  save_device_code dc =
      kv_write kv (put (wire.device.encode dc) (some ttl_device_code)) sessions
        (device_key dc.device_code)
      >> kv_write kv (put (wire.raw dc.device_code) (some ttl_device_code)) sessions
          (user_code_key dc.user_code)

  unfoldable pub get_device_code : Text → kv.State → Result (Option DeviceCode)
  get_device_code device_code = kv_get kv wire.device sessions (device_key device_code)

  unfoldable pub get_device_code_cas : Text → kv.State → Result (Option (DeviceCode × ℕ))
  get_device_code_cas device_code = kv_get_revision kv wire.device sessions (device_key device_code)

  abbrev by_bytes : Result (Option Payload) → kv.State → Result (Option DeviceCode)
  by_bytes (err e) s = err e
  by_bytes (ok none) s = ok none
  by_bytes (ok (some p)) s =
      if from_utf8_lossy (wire.bytes p) == wire.bytes p
      then get_device_code (wire.bytes p) s
      else err (str "invalid device code bytes")

  unfoldable pub get_device_code_by_user_code : Text → kv.State → Result (Option DeviceCode)
  unfolding kv_get_raw from_utf8_lossy get_device_code upper
  get_device_code_by_user_code user_code s =
      by_bytes (kv_get_raw kv wire sessions (user_code_key user_code) s) s

  unfoldable pub consume_device_code_cas : Text → ℕ → Action kv.State (Unit {0})
  consume_device_code_cas device_code revision =
      kv_write kv (cas_delete revision) sessions (device_key device_code)

  abbrev pub set_status :
      ℕ
      → Text
      → Text
      → Option Text
      → Option Text
      → Option (DeviceCode × ℕ)
      → Action kv.State (Unit {0})
  set_status now device_code status user_id sid none = pure tt
  set_status now device_code status user_id sid (some (dc, rev)) =
      kv_write kv
        (cas (wire.device.encode (with_status status user_id sid dc)) rev
          (some (max (dc.expires_at - now) 1)))
        sessions (device_key device_code)

  unfoldable pub update_device_code_status :
      ℕ → Text → Text → Option Text → Option Text → Action kv.State (Unit {0})
  unfolding with_status get_device_code_cas
  update_device_code_status now device_code status user_id sid = do
    read ← reads (get_device_code_cas device_code)
    set_status now device_code status user_id sid read

  unfoldable pub delete_device_code : Text → Action kv.State (Unit {0})
  delete_device_code device_code = kv_write kv delete sessions (device_key device_code)
