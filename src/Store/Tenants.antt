-- ===== src/Store/Tenants.antt =====
-- Tenants and invitations: "Tenant operations" and "Invitation operations" of
-- oidc-gateway/src/store.rs, as far as the services use them.
use jetauth.Prelude.{Text, str, Result, err, ℕ, Option, none, some, ◌*◌, ◌++◌}
use jetauth.Kv.{Kv, put, delete}
use jetauth.Action.{Action, reads, ◌>>=◌}
use jetauth.Store.Types.{Tenant, Invitation}
use jetauth.Store.Wire.{Wire}
use jetauth.Store.Access.{kv_get, kv_write, sessions}

abbrev pub tenants : Text
tenants = str "tenants"

abbrev pub tenant_key : Text → Text
tenant_key id = str "tenant:" ++ id

abbrev pub ttl_invitation : ℕ
ttl_invitation = 86400 * 7

module _ {Payload : Type 0} (kv : Kv Payload) (wire : Wire Payload) where
  unfoldable pub get_tenant : Text → kv.State → Result (Option Tenant)
  get_tenant id = kv_get kv wire.tenant tenants (tenant_key id)

  abbrev unless_there : Tenant → Option Tenant → Action kv.State (Unit {0})
  unless_there tenant (some old) s = (err (str "tenant already exists"), s)
  unless_there tenant none s =
      kv_write kv (put (wire.tenant.encode tenant) none) tenants (tenant_key tenant.id) s

  unfoldable pub create_tenant : Tenant → Action kv.State (Unit {0})
  unfolding get_tenant
  create_tenant tenant = do old ← reads (get_tenant tenant.id); unless_there tenant old

  unfoldable pub update_tenant : Tenant → Action kv.State (Unit {0})
  update_tenant tenant =
      kv_write kv (put (wire.tenant.encode tenant) none) tenants (tenant_key tenant.id)

  unfoldable pub delete_tenant : Text → Action kv.State (Unit {0})
  delete_tenant id = kv_write kv delete tenants (tenant_key id)

  unfoldable pub get_invitation : Text → kv.State → Result (Option Invitation)
  get_invitation token = kv_get kv wire.invitation sessions (str "invite:" ++ token)

  unfoldable pub delete_invitation : Text → Action kv.State (Unit {0})
  delete_invitation token = kv_write kv delete sessions (str "invite:" ++ token)

  unfoldable pub save_invitation : Invitation → Action kv.State (Unit {0})
  save_invitation inv =
      kv_write kv (put (wire.invitation.encode inv) (some ttl_invitation)) sessions
        (str "invite:" ++ inv.token)
