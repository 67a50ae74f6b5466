-- ===== src/Device/Confirmed.antt =====
-- What a confirmation that oidc-gateway/src/device.rs answers as activated has done.
use jetauth.Prelude.{Text, str, ok, ℕ, Option, some, ◌≤◌, ◌≡◌, text_eq}
use jetauth.Kv.{Kv}
use jetauth.Json.{Json}
use jetauth.Jwt.{str_field}
use jetauth.Store.Types.{DeviceCode}
use jetauth.Store.Wire.{Wire}
use jetauth.Store.Cache.{kv_cache_get}
use jetauth.Store.Devices.Status.{IsUpdated}
use jetauth.Util.Query.{Form, form_value}
use jetauth.Device.Confirm.{approval_key, decision_or_deny}

module _ {Payload : Type 0} (kv : Kv Payload) (wire : Wire Payload) (now : ℕ → ℕ) where
  -- The device waited in time, and its entry is approved for the user now.
  abbrev pub Approves :
      (decision device_code user_id : Text) → (sid : Option Text) → DeviceCode → kv.State → Type 0
  Approves decision device_code user_id sid dc after =
      (decision ≡ str "approve")
      × (dc.status ≡ str "pending")
      × (now 1 ≤ dc.expires_at)
      × IsUpdated kv wire device_code (str "approved") (some user_id) sid dc after

  -- What a record of an approval has brought about.
  abbrev pub Records : (decision : Text) → Json → kv.State → Type 0
  Records decision entry after =
      (device_code : Text) × (user_id : Text) × (dc : DeviceCode) × (str_field entry
          (str "device_code")
        ≡ some device_code)
      × (str_field entry (str "user_id") ≡ some user_id)
      × Approves decision device_code user_id (str_field entry (str "sid")) dc after

  -- What a confirmation that is answered as activated has found and done.
  abbrev pub Confirms : Form → (before after : kv.State) → Type 0
  Confirms form before after =
      (token : Text) × (entry : Json) × (form_value form (str "approval_token") ≡ some token)
      × ((kv_cache_get kv wire (now 0) (approval_key token) before).0 ≡ ok (some entry))
      × Records (decision_or_deny (form_value form (str "decision"))) entry after
