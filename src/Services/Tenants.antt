-- ===== src/Services/Tenants.antt =====
-- Members of a tenant: `add_member`, `remove_member` and `invite_user` of
-- oidc-gateway/src/services/tenants.rs. The audit log and the mail are left out.
pub mod Hierarchy
pub mod Lifecycle
pub mod Valid
use jetauth.Prelude.{
  Text, str, contains, ltb, leb, Result, ok, err, ℕ, Bool, Option, none, some, List, [], ◌+◌, ◌*◌,
  ◌||◌, ◌∷◌, ◌++◌, ◌==◌, text_eq,
}
use jetauth.Kv.{Kv}
use jetauth.Store.Types.{Membership, Invitation}
use jetauth.Store.Wire.{Wire}
use jetauth.Store.Users.{get_user}
use jetauth.Store.Members.{add_membership, get_membership, remove_membership}
use jetauth.Store.Tenants.{get_tenant, save_invitation}
use jetauth.Services.Authz.{ApiError, Caller, role_level, tenant_role, require_tenant_role}
use jetauth.Services.Api.{
  Reply, done, failed, Api, api_error, internal_error, of_verdict, of_test, of_found, reply,
  answers, internal, ◌>>=◌, ◌>>◌,
}

abbrev pub assignable_roles : List Text
assignable_roles = str "owner" ∷ str "admin" ∷ str "manager" ∷ str "member" ∷ []

abbrev pub invitable_roles : List Text
invitable_roles = str "admin" ∷ str "manager" ∷ str "member" ∷ []

-- The error of a role that outranks the caller's.
abbrev pub outranked : Text → Text → Text → ApiError
outranked doing role own = api_error 403 (
    str "forbidden: cannot "
    ++ (doing ++ (role ++ (str " which is higher than your role " ++ own))))

-- No membership yet.
abbrev pub of_absent : Result (Option Membership) → Reply (Unit {0})
of_absent (ok none) = done tt
of_absent (ok (some m)) = failed (api_error 409 (str "user is already a member of this tenant"))
of_absent (err e) = failed (internal_error e)

-- Whether the caller may remove a member of this role: oneself, as a superadmin, or one who ranks
-- below.
unfoldable pub may_remove : Caller → (tenant_id user_id target_role : Text) → Bool
may_remove caller tenant_id user_id target_role =
    caller.user_id == user_id
    || (caller.is_superadmin
        || ltb (role_level target_role) (role_level (tenant_role caller tenant_id)))

module _ {Payload : Type 0} (kv : Kv Payload) (wire : Wire Payload) (now : ℕ) where
  unfoldable pub add_member : Caller → (tenant_id user_id role : Text) → Api kv.State Membership
  add_member caller tenant_id user_id role = do
    reply (of_verdict (require_tenant_role caller tenant_id (str "manager")))
    reply (
        of_test (contains assignable_roles role)
          (api_error 400 (str "invalid role (must be owner, admin, manager, or member)")))
    reply (
        of_test (leb (role_level role) (role_level (tenant_role caller tenant_id)))
          (outranked (str "assign role ") role (tenant_role caller tenant_id)))
    tenant ←
        answers
          (λ s. of_found (api_error 404 (str "tenant not found")) (get_tenant kv wire tenant_id s))
    user ←
        answers (λ s. of_found (api_error 404 (str "user not found")) (get_user kv wire user_id s))
    answers (λ s. of_absent (get_membership kv wire tenant_id user_id s))
    internal (
        add_membership kv wire
          (record { tenant_id = tenant_id; user_id = user_id; role = role; joined_at = now }))
    reply (done (record { tenant_id = tenant_id; user_id = user_id; role = role; joined_at = now }))

  unfoldable pub remove_member : Caller → (tenant_id user_id : Text) → Api kv.State (Unit {0})
  unfolding may_remove
  remove_member caller tenant_id user_id = do
    reply (of_verdict (require_tenant_role caller tenant_id (str "manager")))
    membership ← answers (λ s.
        of_found (api_error 404 (str "membership not found"))
          (get_membership kv wire tenant_id user_id s))
    reply (
        of_test (may_remove caller tenant_id user_id membership.role) (
          api_error 403 (
            str "forbidden: cannot remove user with role "
            ++ (membership.role
                ++ (str " (you are " ++ (tenant_role caller tenant_id ++ str ")"))))))
    internal (remove_membership kv wire tenant_id user_id)

  abbrev pub invitation_of : Caller → (tenant_id email role random : Text) → Invitation
  invitation_of caller tenant_id email role random = record {
    tenant_id = tenant_id;
    email = email;
    role = role;
    token = random;
    invited_by = caller.user_id;
    expires_at = now + 86400 * 7;
  }

  unfoldable pub invite_user :
      Caller → (tenant_id email role random : Text) → Api kv.State Invitation
  invite_user caller tenant_id email role random = do
    reply (of_verdict (require_tenant_role caller tenant_id (str "manager")))
    reply (
        of_test (contains invitable_roles role) (api_error 400 (str "invalid role for invitation")))
    reply (
        of_test (leb (role_level role) (role_level (tenant_role caller tenant_id)))
          (outranked (str "invite to role ") role (tenant_role caller tenant_id)))
    tenant ←
        answers
          (λ s. of_found (api_error 404 (str "tenant not found")) (get_tenant kv wire tenant_id s))
    internal (save_invitation kv wire (invitation_of caller tenant_id email role random))
    reply (done (invitation_of caller tenant_id email role random))
