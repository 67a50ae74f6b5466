-- ===== src/Services/Authz.antt =====
-- The callers of the management plane and what they may do: oidc-gateway/src/services/authz.rs.
pub mod Precedence
pub mod Roles
use jetauth.Prelude.{
  Text, str, leb, ℕ, Bool, true, false, Option, none, some, List, [], or_empty, ◌||◌, ◌∷◌, ◌++◌,
  ◌==◌, if◌then◌else◌, text_eq,
}
use jetauth.Json.{Json, get, as_str, as_array}
use jetauth.Store.Types.{User, Membership}

-- An error of the API: its status, the message for the client, and what is logged besides.
pub record ApiError : Type 0 where
  pub status : ℕ
  pub message : Text
  pub detail : Option Text

pub data Verdict : Type 0 where
  granted : Verdict
  denied : ApiError → Verdict

abbrev pub forbidden : Text → Verdict
forbidden message = denied (record { status = 403; message = message; detail = none })

unfoldable pub role_level : Text → ℕ
role_level role =
    if role == str "owner"
    then 4
    else if role == str "admin"
    then 3
    else if role == str "manager"
    then 2
    else if role == str "member"
    then 1
    else 0

pub record Caller : Type 0 where
  pub user_id : Text
  pub is_superadmin : Bool
  pub tenant_roles : List (Text × Text)

-- `.get(key).and_then(|v| v.as_str())`
abbrev pub text_of : Option Json → Option Text
text_of none = none
text_of (some v) = as_str v

-- The tenant and the role of an element, if it has both.
abbrev pub pair_of : Option Text → Option Text → List (Text × Text) → List (Text × Text)
pair_of (some id) (some role) rest = (id, role) ∷ rest
pair_of (some id) none rest = rest
pair_of none role rest = rest

unfoldable pub pairs_of : List Json → List (Text × Text)
pairs_of [] = []
pairs_of (t ∷ ts) =
    let rest = pairs_of ts in
    pair_of (text_of (get t (str "tenant_id"))) (text_of (get t (str "role"))) rest

abbrev pub array_of : Option Json → List Json
array_of none = []
array_of (some v) = elim (as_array v) [ none ↦ [] | some ts ↦ ts ]

-- `tenant_roles.retain(|(id, _)| id != tid)`
unfoldable pub retain_others : Text → List (Text × Text) → List (Text × Text)
retain_others tid [] = []
retain_others tid ((id, role) ∷ roles) =
    let rest = retain_others tid roles in if id == tid then rest else (id, role) ∷ rest

-- The direct claim of a tenant takes the place of what the array says of that tenant.
unfoldable pub with_direct :
    (is_superadmin : Bool)
    → Option Text
    → (global_role : Text) → List (Text × Text)
    → List (Text × Text)
unfolding retain_others
with_direct true tid global_role roles = roles
with_direct false none global_role roles = roles
with_direct false (some tid) global_role roles = retain_others tid roles ++ (tid, global_role) ∷ []

unfoldable pub from_claims : Json → Caller
unfolding pairs_of with_direct
from_claims claims =
    let global_role = or_empty (text_of (get claims (str "role"))) in
    let is_superadmin = global_role == str "superadmin" in
    record {
      user_id = or_empty (text_of (get claims (str "sub")));
      is_superadmin = is_superadmin;
      tenant_roles =
          with_direct is_superadmin (text_of (get claims (str "tenant_id"))) global_role
            (pairs_of (array_of (get claims (str "tenants"))));
    }

abbrev pub roles_of : List Membership → List (Text × Text)
roles_of [] = []
roles_of (m ∷ ms) = (m.tenant_id, m.role) ∷ roles_of ms

-- The caller of an admin session, given the memberships that the store lists, none on an error.
unfoldable pub from_admin_session : User → (is_superadmin : Bool) → List Membership → Caller
from_admin_session user is_superadmin memberships = record {
  user_id = user.id;
  is_superadmin = is_superadmin;
  tenant_roles = if is_superadmin then [] else roles_of memberships;
}

unfoldable pub find_role : List (Text × Text) → Text → Text
find_role [] tenant_id = []
find_role ((id, role) ∷ roles) tenant_id =
    if id == tenant_id then role else find_role roles tenant_id

unfoldable pub tenant_role : Caller → Text → Text
unfolding find_role
tenant_role caller tenant_id =
    if caller.is_superadmin then str "owner" else find_role caller.tenant_roles tenant_id

unfoldable pub require_superadmin : Caller → Verdict
require_superadmin caller =
    if caller.is_superadmin then granted else forbidden (str "forbidden: superadmin role required")

unfoldable pub require_tenant_role : Caller → (tenant_id min_role : Text) → Verdict
unfolding role_level tenant_role
require_tenant_role caller tenant_id min_role =
    if leb (role_level min_role) (role_level (tenant_role caller tenant_id))
    then granted
    else forbidden (str "forbidden: requires " ++ (min_role ++ str " role or higher"))

unfoldable pub require_self_or_superadmin : Caller → Text → Verdict
require_self_or_superadmin caller user_id =
    if caller.user_id == user_id || caller.is_superadmin
    then granted
    else forbidden
        (str "forbidden: can only manage your own credentials, or requires superadmin role")
