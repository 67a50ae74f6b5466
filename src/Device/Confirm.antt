-- ===== src/Device/Confirm.antt =====
-- The confirmation of a device: `create_approval` and `handle_confirmation` of
-- oidc-gateway/src/device.rs.
use jetauth.Prelude.{
  Text, str, ltb, ok, ok_or, ℕ, not, Option, none, some, ◌++◌, ◌==◌, if◌then◌else◌, text_eq,
}
use jetauth.Kv.{Kv, delete}
use jetauth.Action.{Action, pure, lift, reads, ignore, ◌>>=◌, ◌>>◌}
use jetauth.Json.{Json, text, null, obj, field, end}
use jetauth.Jwt.{str_field}
use jetauth.Store.Types.{User, DeviceCode}
use jetauth.Store.Records.{AuthSession}
use jetauth.Store.Wire.{Wire}
use jetauth.Store.Access.{kv_write}
use jetauth.Token.Issue.{required}
use jetauth.Store.Cache.{cache, kv_cache_get, kv_cache_set}
use jetauth.Store.Devices.{get_device_code, update_device_code_status}
use jetauth.Util.Query.{Form, form_value}
use jetauth.Device.Answers.{Answer, page_error, activated, declined}

abbrev pub approval_key : Text → Text
approval_key approval_token = str "device_approval:" ++ approval_token

abbrev text_or_null : Option Text → Json
text_or_null none = null
text_or_null (some t) = text t

-- What the approval token stands for.
unfoldable pub approval_record : AuthSession → User → Json
approval_record session user = obj (
    field (str "device_code") (text session.state) (
      field (str "user_id") (text user.id) (
        field (str "client_id") (text session.client_id)
          (field (str "sid") (text_or_null session.sid) end))))

abbrev pub decision_or_deny : Option Text → Text
decision_or_deny none = str "deny"
decision_or_deny (some decision) = decision

abbrev pub invalid_record : Text
invalid_record = str "invalid approval record"

-- `now` is what the clock gives at the places that read it.
module _ {Payload : Type 0} (kv : Kv Payload) (wire : Wire Payload) (now : ℕ → ℕ) where
  -- The random token is an argument.
  unfoldable pub create_approval :
      (approval_token : Text) → AuthSession → User → Action kv.State Text
  unfolding approval_record kv_cache_set
  create_approval approval_token session user =
      kv_cache_set kv wire (now 0) (approval_key approval_token) (approval_record session user) 300
      >> pure approval_token

  unfoldable pub decide :
      (decision device_code user_id : Text)
      → (sid : Option Text) → DeviceCode
      → Action kv.State Answer
  unfolding update_device_code_status
  decide decision device_code user_id sid dc s =
      if ltb dc.expires_at (now 1)
      then (ok (page_error (str "Code has expired. Please restart on your device.")), s)
      else if not (dc.status == str "pending")
      then (ok (page_error (str "This code has already been used.")), s)
      else if not (decision == str "approve")
      then (update_device_code_status kv wire (now 2) device_code (str "denied") none none
            >> pure declined)
          s
      else (update_device_code_status kv wire (now 2) device_code (str "approved") (some user_id)
              sid
            >> pure activated)
          s

  -- Behind the reading of the token's record, which is deleted.
  unfoldable pub with_record : (key decision : Text) → Json → Action kv.State Answer
  unfolding get_device_code decide
  with_record key decision entry = do
    ignore (kv_write kv delete cache key)
    device_code ← lift (ok_or (str_field entry (str "device_code")) invalid_record)
    user_id ← lift (ok_or (str_field entry (str "user_id")) invalid_record)
    dc ← reads (λ s.
        required (str "device code not found or expired") (get_device_code kv wire device_code s))
    decide decision device_code user_id (str_field entry (str "sid")) dc

  abbrev pub of_record : (key decision : Text) → Option Json → Action kv.State Answer
  of_record key decision none s = (
    ok (
        page_error (
          str "This confirmation has expired or was already used. Please restart on your device.")),
    s,
  )
  of_record key decision (some entry) s = with_record key decision entry s

  unfoldable pub handle_confirmation : Form → Action kv.State Answer
  unfolding kv_cache_get with_record
  handle_confirmation form = do
    approval_token ←
        lift (ok_or (form_value form (str "approval_token")) (str "missing approval_token"))
    entry ← kv_cache_get kv wire (now 0) (approval_key approval_token)
    of_record (approval_key approval_token) (decision_or_deny (form_value form (str "decision")))
        entry
