-- ===== src/Services/Tenants/Lifecycle.antt =====
-- The life of a tenant: `create_tenant_with_id`, `create_tenant`, `update_tenant` and
-- `delete_tenant` of oidc-gateway/src/services/tenants.rs. The audit log and the replication to
-- other regions are left out.
use jetauth.Prelude.{
  Text, str, is_empty, length, contains, ltb, ℕ, not, Option, none, some, List, [], ◌∷◌, ◌++◌,
  if◌then◌else◌, text_eq,
}
use jetauth.Kv.{Kv}
use jetauth.Store.Types.{Tenant}
use jetauth.Store.Wire.{Wire}
use jetauth.Store.Tenants.{
  get_tenant, create_tenant as save_new_tenant, update_tenant as save_tenant,
  delete_tenant as drop_tenant,
}
use jetauth.Services.Authz.{ApiError, Caller, require_superadmin}
use jetauth.Services.Api.{
  Reply, done, failed, Api, api_error, of_verdict, of_test, of_found, reply, answers, internal,
  ◌>>=◌, ◌>>◌,
}

abbrev pub valid_tenant_statuses : List Text
valid_tenant_statuses = str "active" ∷ str "suspended" ∷ []

-- A partial update; a missing field stays as it is.
pub record UpdateTenantParams : Type 0 where
  pub display_name : Option Text
  pub status : Option Text

abbrev bad_request : Text → ApiError
bad_request message = api_error 400 message

abbrev pub too_long : Text
too_long = str "display_name too long (max 256 characters)"

unfoldable pub with_display_name : Option Text → Tenant → Reply Tenant
with_display_name none tenant = done tenant
with_display_name (some display_name) tenant =
    if is_empty display_name
    then failed (bad_request (str "display_name is required"))
    else if ltb 256 (length display_name)
    then failed (bad_request too_long)
    else done (record tenant { display_name = display_name })

unfoldable pub with_status : Option Text → Tenant → Reply Tenant
with_status none tenant = done tenant
with_status (some status) tenant =
    if contains valid_tenant_statuses status
    then done (record tenant { status = status })
    else failed (bad_request (str "invalid status (valid: active, suspended)"))

abbrev pub new_tenant : (id name display_name : Text) → (now : ℕ) → Tenant
new_tenant id name display_name now = record {
  id = id;
  name = name;
  display_name = display_name;
  status = str "active";
  created_at = now;
}

module _ {Payload : Type 0} (kv : Kv Payload) (wire : Wire Payload) (now : ℕ) where
  unfoldable pub create_tenant_with_id :
      Caller → (id name display_name : Text) → Api kv.State Tenant
  unfolding save_new_tenant
  create_tenant_with_id caller id name display_name = do
    reply (of_verdict (require_superadmin caller))
    reply (of_test (not (is_empty name)) (bad_request (str "name is required")))
    reply (
        of_test (not (ltb 128 (length name)))
          (bad_request (str "name too long (max 128 characters)")))
    reply (of_test (not (ltb 256 (length display_name))) (bad_request too_long))
    internal (save_new_tenant kv wire (new_tenant id name display_name now))
    reply (done (new_tenant id name display_name now))

  -- The random text makes the identifier.
  unfoldable pub create_tenant : Caller → (random name display_name : Text) → Api kv.State Tenant
  unfolding create_tenant_with_id
  create_tenant caller random name display_name =
      reply (of_verdict (require_superadmin caller))
      >> create_tenant_with_id caller (str "tenant_" ++ random) name display_name

  unfoldable pub update_tenant :
      Caller → (tenant_id : Text) → UpdateTenantParams → Api kv.State Tenant
  unfolding get_tenant save_tenant with_display_name with_status
  update_tenant caller tenant_id params = do
    reply (of_verdict (require_superadmin caller))
    old ←
        answers
          (λ s. of_found (api_error 404 (str "tenant not found")) (get_tenant kv wire tenant_id s))
    named ← reply (with_display_name params.display_name old)
    tenant ← reply (with_status params.status named)
    internal (save_tenant kv wire tenant)
    reply (done tenant)

  unfoldable pub delete_tenant : Caller → (tenant_id : Text) → Api kv.State (Unit {0})
  unfolding get_tenant drop_tenant
  delete_tenant caller tenant_id = do
    reply (of_verdict (require_superadmin caller))
    old ←
        answers
          (λ s. of_found (api_error 404 (str "tenant not found")) (get_tenant kv wire tenant_id s))
    internal (drop_tenant kv wire tenant_id)
