-- ===== src/Tests/Members.antt =====
-- A manager who adds, invites and removes members of a tenant.
use jetauth.Prelude.{
  str, text_beq, contains_text, contains, ok, refl, true, none, [], ◌≤◌, ◌≡◌, ◌≢◌, ◌∷◌, ◌>>=◌,
  text_eq,
}
use jetauth.Kv.Memory.{Table}
use jetauth.Store.Types.{Membership, Tenant, Invitation}
use jetauth.Store.Members.{get_membership}
use jetauth.Services.Authz.{Caller, granted, role_level, tenant_role, require_tenant_role}
use jetauth.Services.Api.{done}
use jetauth.Services.Tenants.{assignable_roles, add_member, invite_user, invitation_of}
use jetauth.Services.Tenants.Hierarchy.{add_member-Hierarchy, invite_user-Hierarchy}
use jetauth.Tests.{Value, user_value, tenant_value, membership_value, kv, wire, user}
use jetauth.Tests.Callers.{manager}

abbrev tenant : Tenant
tenant = record {
  id = str "t";
  name = str "acme";
  display_name = str "Acme";
  status = str "active";
  created_at = 1;
}

abbrev member : Membership
member = record { tenant_id = str "t"; user_id = str "u1"; role = str "member"; joined_at = 100 }

abbrev before : Table Value
before =
    (str "tenants:tenant:t", (tenant_value tenant, 1))
    ∷ (str "users:user:u1", (user_value user, 2))
    ∷ []

abbrev caller : Caller
caller = record manager { user_id = str "u9" }

added : (add_member kv wire 100 caller (str "t") (str "u1") (str "member") before).0 ≡ done member
unfolding add_member jetauth.Services.Api.◌>>=◌ jetauth.Action.◌>>=◌ require_tenant_role
    jetauth.Prelude.text_beq contains jetauth.Store.Tenants.get_tenant jetauth.Store.Access.kv_get
    jetauth.Kv.Memory.get jetauth.Kv.Memory.find jetauth.Store.Users.get_user get_membership
    jetauth.Prelude.contains_text jetauth.Store.Members.add_membership jetauth.Store.Access.kv_write
    jetauth.Kv.Memory.write
added = refl

add_member-Hierarchy_example :
    (require_tenant_role caller (str "t") (str "manager") ≡ granted)
    × (contains assignable_roles (str "member") ≡ true)
    × (role_level (str "member") ≤ role_level (tenant_role caller (str "t")))
    × (get_membership kv wire (str "t") (str "u1") before ≡ ok none)
    × (member ≡ member)
add_member-Hierarchy_example =
    add_member-Hierarchy kv wire 100 caller (str "t") (str "u1") (str "member") before member added

abbrev invitation : Invitation
invitation = invitation_of kv wire 100 caller (str "t") (str "a@b") (str "member") (str "r")

invited :
    (invite_user kv wire 100 caller (str "t") (str "a@b") (str "member") (str "r") before).0
    ≡ done invitation
unfolding invite_user jetauth.Services.Api.◌>>=◌ jetauth.Action.◌>>=◌ require_tenant_role
    jetauth.Prelude.text_beq contains jetauth.Store.Tenants.get_tenant jetauth.Store.Access.kv_get
    jetauth.Kv.Memory.get jetauth.Kv.Memory.find jetauth.Store.Tenants.save_invitation
    jetauth.Store.Access.kv_write jetauth.Kv.Memory.write
invited = refl

invite_user-Hierarchy_example :
    (require_tenant_role caller (str "t") (str "manager") ≡ granted)
    × (str "member" ≢ str "owner")
    × (role_level (str "member") ≤ role_level (tenant_role caller (str "t")))
invite_user-Hierarchy_example =
    invite_user-Hierarchy kv wire 100 caller (str "t") (str "a@b") (str "member") (str "r") before
      invitation invited

abbrev joined : Table Value
joined = (str "memberships:tenant:t:user:u1", (membership_value member, 1)) ∷ before
