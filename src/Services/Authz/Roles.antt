-- ===== src/Services/Authz/Roles.antt =====
-- Who passes the tests of oidc-gateway/src/services/authz.rs.
use jetauth.Prelude.{
  Text, str, text_beq, leb, leb→le, ℕ, refl, inl, inr, Bool, true, false, arith, ◌≤◌, ◌≡◌, ◌↔◌, ◌⊎◌,
  if◌then◌else◌, text_eq,
}
use jetauth.Services.Authz.{
  Caller, Verdict, granted, forbidden, role_level, tenant_role, find_role, require_tenant_role,
}

role_level-le-owner : (role : Text) → role_level role ≤ 4
unfolding role_level
role_level-le-owner role = ground arith

abbrev verdict : Bool → Text → Verdict
verdict passes e = if passes then granted else forbidden e

verdict_iff : (b : Bool) (e : Text) → (verdict b e ≡ granted) ↔ (b ≡ true)
verdict_iff true e = (λ _. refl, λ _. refl)
verdict_iff false e = (λ h. cc, λ h. cc)

by_rank :
    (superadmin : Bool) (least : ℕ) (role : Text)
    → least ≤ 4
    → (leb least (role_level (if superadmin then str "owner" else role)) ≡ true)
      ↔ ((superadmin ≡ true) ⊎ (least ≤ role_level role))
by_rank true least role h = (λ _. inl refl, λ _. rw level_owner (ground arith))
  where
    level_owner : role_level (str "owner") ≡ 4
    level_owner = unfold role_level text_beq in refl
by_rank false least role h = (λ k. inr (leb→le _ _ k), λ k. ground arith)

-- A test for a role passes exactly where the caller is a superadmin or the caller's role on that
-- tenant ranks at least as high; unknown tenants count as the lowest rank.
pub require_tenant_role_iff :
    (caller : Caller) (tenant_id min_role : Text)
    → (require_tenant_role caller tenant_id min_role ≡ granted) ↔ (
        (caller.is_superadmin ≡ true)
        ⊎ (role_level min_role ≤ role_level (find_role caller.tenant_roles tenant_id)))
unfolding require_tenant_role tenant_role
require_tenant_role_iff caller tenant_id min_role =
    let (to, from) =
      verdict_iff (leb (role_level min_role) (role_level (tenant_role caller tenant_id))) _ in
    let (down, up) =
      by_rank caller.is_superadmin (role_level min_role) (find_role caller.tenant_roles tenant_id)
        (role_level-le-owner min_role) in
    (λ h. down (to h), λ h. from (up h))

-- A caller who passes for a role passes for every role that ranks no higher.
pub require_tenant_role-le :
    (caller : Caller) (tenant_id high low : Text)
    → role_level low ≤ role_level high
    → require_tenant_role caller tenant_id high ≡ granted
    → require_tenant_role caller tenant_id low ≡ granted
require_tenant_role-le caller tenant_id high low le h =
    (require_tenant_role_iff caller tenant_id low).1
      (elim ((require_tenant_role_iff caller tenant_id high).0 h) [
        | inl superadmin ↦ inl superadmin
        | inr ranks ↦ inr (omega arith)
      ])
