-- ===== src/Tests/Tenants.antt =====
-- A tenant that a superadmin creates and suspends.
use jetauth.Prelude.{
  str, text_beq, contains_text, contains, ok, refl, true, none, some, [], ◌≡◌, ◌>>=◌,
}
use jetauth.Kv.Memory.{Table}
use jetauth.Store.Types.{Tenant}
use jetauth.Store.Tenants.{get_tenant}
use jetauth.Services.Authz.{Caller}
use jetauth.Services.Api.{done}
use jetauth.Services.Tenants.Lifecycle.{UpdateTenantParams, create_tenant_with_id, update_tenant}
use jetauth.Services.Tenants.Valid.{IsValidTenant, created, updated, Managed-IsValidTenant}
use jetauth.Tests.{Value, kv, wire}
use jetauth.Tests.Callers.{manager}

abbrev superadmin : Caller
superadmin = record manager { is_superadmin = true }

abbrev none_stored : Table Value
none_stored = []

abbrev acme : Tenant
acme = record {
  id = str "t";
  name = str "acme";
  display_name = str "Acme";
  status = str "active";
  created_at = 100;
}

abbrev suspends : UpdateTenantParams
suspends = record { display_name = none; status = some (str "suspended") }

acme_created :
    (create_tenant_with_id kv wire 100 superadmin (str "t") (str "acme") (str "Acme") none_stored).0
    ≡ done acme
unfolding create_tenant_with_id jetauth.Services.Api.◌>>=◌ jetauth.Services.Authz.require_superadmin
    jetauth.Action.◌>>=◌ jetauth.Store.Access.kv_get jetauth.Kv.Memory.get jetauth.Kv.Memory.find
    jetauth.Prelude.contains_text jetauth.Store.Access.kv_write jetauth.Kv.Memory.write
acme_created = refl

abbrev acme_stored : Table Value
acme_stored =
    (create_tenant_with_id kv wire 100 superadmin (str "t") (str "acme") (str "Acme") none_stored).1

acme_found : get_tenant kv wire (str "t") acme_stored ≡ ok (some acme)
unfolding get_tenant jetauth.Store.Access.kv_get jetauth.Kv.Memory.get jetauth.Kv.Memory.find
    create_tenant_with_id jetauth.Services.Api.◌>>=◌ jetauth.Services.Authz.require_superadmin
    jetauth.Action.◌>>=◌ jetauth.Prelude.contains_text jetauth.Store.Access.kv_write
    jetauth.Kv.Memory.write jetauth.Prelude.text_beq
acme_found = refl

acme_suspended :
    (update_tenant kv wire 200 superadmin (str "t") suspends acme_stored).0
    ≡ done (record acme { status = str "suspended" })
unfolding update_tenant jetauth.Services.Api.◌>>=◌ jetauth.Services.Authz.require_superadmin
    jetauth.Store.Access.kv_get jetauth.Kv.Memory.get jetauth.Kv.Memory.find create_tenant_with_id
    jetauth.Action.◌>>=◌ jetauth.Prelude.contains_text jetauth.Store.Access.kv_write
    jetauth.Kv.Memory.write jetauth.Prelude.text_beq jetauth.Prelude.contains
acme_suspended = refl

Managed-IsValidTenant_example : IsValidTenant (record acme { status = str "suspended" })
Managed-IsValidTenant_example = Managed-IsValidTenant kv wire (
    updated superadmin (str "t") suspends 200 acme_stored
      (created superadmin (str "t") (str "acme") (str "Acme") 100 none_stored acme_created)
      acme_found acme_suspended)
