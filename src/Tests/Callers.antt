-- ===== src/Tests/Callers.antt =====
-- A caller of the management plane.
use jetauth.Prelude.{str, text_beq, refl, false, [], ◌≡◌, ◌∷◌, text_eq}
use jetauth.Services.Authz.{Caller, granted, require_tenant_role}

abbrev pub manager : Caller
manager = record {
  user_id = str "u1";
  is_superadmin = false;
  tenant_roles = (str "t", str "manager") ∷ [];
}

manager_passes : require_tenant_role manager (str "t") (str "manager") ≡ granted
unfolding require_tenant_role text_beq
manager_passes = refl
