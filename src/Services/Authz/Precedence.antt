-- ===== src/Services/Authz/Precedence.antt =====
-- Which of the claims decides the role on a tenant: `Caller::from_claims` of
-- oidc-gateway/src/services/authz.rs.
use jetauth.Prelude.{
  Text, str, text_beq_refl, text_beq_iff, false, some, List, [], arith, or_empty, ◌≡◌, ◌≢◌, ◌∷◌,
  ◌++◌, ◌==◌, text_eq,
}
use jetauth.Json.{Json, get}
use jetauth.Services.Authz.{
  text_of, array_of, pairs_of, retain_others, with_direct, from_claims, find_role, tenant_role,
}

find_role-direct :
    (tid role : Text) (roles : List (Text × Text))
    → find_role (retain_others tid roles ++ (tid, role) ∷ []) tid ≡ role
unfolding find_role retain_others
find_role-direct tid role [] = ground (arith, text_beq_refl tid)
find_role-direct tid role ((id, r) ∷ roles) = ground (arith, find_role-direct tid role roles)

-- What the array says of other tenants stays.
find_role-append :
    (tid other role : Text) (roles : List (Text × Text))
    → tid ≢ other
    → find_role (retain_others tid roles ++ (tid, role) ∷ []) other ≡ find_role roles other
unfolding find_role retain_others
find_role-append tid other role [] n = ground (arith, text_beq_iff tid other)
find_role-append tid other role ((id, r) ∷ roles) n =
    ground
      (arith, find_role-append tid other role roles n, text_beq_iff id tid, text_beq_iff id other)

-- For a caller whose claims name a tenant directly and who is no superadmin, the role on that tenant
-- is the direct one, whatever the array says of the tenant.
pub from_claims-direct :
    (claims : Json) (tid : Text)
    → text_of (get claims (str "tenant_id")) ≡ some tid
    → (or_empty (text_of (get claims (str "role"))) == str "superadmin") ≡ false
    → tenant_role (from_claims claims) tid ≡ or_empty (text_of (get claims (str "role")))
unfolding from_claims tenant_role with_direct
from_claims-direct claims tid direct plain = rw (plain, direct) (find_role-direct tid _ _)

-- On every other tenant it is the one that the array gives.
pub from_claims-others :
    (claims : Json) (tid other : Text)
    → text_of (get claims (str "tenant_id")) ≡ some tid
    → (or_empty (text_of (get claims (str "role"))) == str "superadmin") ≡ false
    → tid ≢ other
    → tenant_role (from_claims claims) other
      ≡ find_role (pairs_of (array_of (get claims (str "tenants")))) other
unfolding from_claims tenant_role with_direct
from_claims-others claims tid other direct plain n =
    rw (plain, direct) (find_role-append tid other _ _ n)
