-- ===== src/Store/Devices/Status.antt =====
-- What `update_device_code_status` of oidc-gateway/src/store.rs does to the entry of a device.
use jetauth.Prelude.{Text, ok, ℕ, sym, ap, inl, inr, Option, some, arith, ok_injective, ◌≡◌, ◌∙◌}
use jetauth.Kv.{Kv}
use jetauth.Action.{reads, bind-eq-ok, bind-ok}
use jetauth.Store.Types.{DeviceCode}
use jetauth.Store.Wire.{Wire}
use jetauth.Store.Access.{sessions}
use jetauth.Store.Access.Effects.{kv_get-found, kv_get_revision-stands, kv_write-done}
use jetauth.Store.Devices.{
  device_key, with_status, set_status, get_device_code, get_device_code_cas,
  update_device_code_status,
}

module _ {Payload : Type 0} (kv : Kv Payload) (wire : Wire Payload) where
  -- What an update with success has done to an entry that could be read.
  abbrev pub IsUpdated :
      (device_code status : Text) → (user_id sid : Option Text) → DeviceCode → kv.State → Type 0
  IsUpdated device_code status user_id sid dc s =
      (q : ℕ) × (kv.view s sessions (device_key device_code)
        ≡ some (wire.device.encode (with_status status user_id sid dc), q))

  set_status-IsUpdated :
      (now : ℕ) (device_code status : Text) (user_id sid : Option Text) (dc : DeviceCode) (r : ℕ)
      (s : kv.State)
      → (set_status kv wire now device_code status user_id sid (some (dc, r)) s).0 ≡ ok tt
      → IsUpdated device_code status user_id sid dc
          (set_status kv wire now device_code status user_id sid (some (dc, r)) s).1
  set_status-IsUpdated now device_code status user_id sid dc r s h =
      let (q, (_, _, new)) = kv_write-done kv _ sessions (device_key device_code) s h in (q, new)

  pub update_device_code_status-IsUpdated :
      (now : ℕ) (device_code status : Text) (user_id sid : Option Text) (dc : DeviceCode)
      (s : kv.State)
      → get_device_code kv wire device_code s ≡ ok (some dc)
      → (update_device_code_status kv wire now device_code status user_id sid s).0 ≡ ok tt
      → IsUpdated device_code status user_id sid dc
          (update_device_code_status kv wire now device_code status user_id sid s).1
  unfolding get_device_code get_device_code_cas update_device_code_status
  update_device_code_status-IsUpdated now device_code status user_id sid dc s read h =
      let (p, r, there, decoded) =
        kv_get-found kv wire.device sessions (device_key device_code) s dc read in
      let asks = reads (get_device_code_cas kv wire device_code) in
      let sets = set_status kv wire now device_code status user_id sid in
      let (o, again, done) = bind-eq-ok asks sets s h in
      elim (kv_get_revision-stands kv wire.device sessions (device_key device_code) s p r dc there
        decoded) [
          | inl same ↦
              let is = ok_injective _ _ (sym same ∙ again) in
              rw (bind-ok asks sets s same) (
                set_status-IsUpdated now device_code status user_id sid dc r s
                  (ap (λ x. (sets x s).0) is ∙ done))
          | inr (e, failed) ↦ absurd (ground arith)
        ]
