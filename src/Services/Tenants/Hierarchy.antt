-- ===== src/Services/Tenants/Hierarchy.antt =====
-- No member of a tenant hands out or takes away more than the own role:
-- oidc-gateway/src/services/tenants.rs.
use jetauth.Prelude.{
  Text, str, text_beq, contains, leb→le, Result, ok, err, ℕ, refl, sym, ap, Bool, true, false,
  Option, none, some, ◌≤◌, ◌≡◌, ◌≢◌, text_eq,
}
use jetauth.Kv.{Kv}
use jetauth.Store.Types.{Membership, Invitation}
use jetauth.Store.Wire.{Wire}
use jetauth.Store.Members.{get_membership}
use jetauth.Services.Authz.{
  ApiError, Caller, Verdict, granted, denied, role_level, tenant_role, require_tenant_role,
}
use jetauth.Services.Api.{done, of_verdict, of_test, bind-eq-done}
use jetauth.Services.Tenants.{assignable_roles, invitable_roles, of_absent, add_member, invite_user}

done_injective : {A : Type 0} (a b : A) → done a ≡ done b → a ≡ b
done_injective a b h = cc

of_verdict-eq-done : (v : Verdict) {u : Unit {0}} → of_verdict v ≡ done u → v ≡ granted
of_verdict-eq-done granted h = refl
of_verdict-eq-done (denied e) h = cc

of_test-eq-done : (b : Bool) (e : ApiError) {u : Unit {0}} → of_test b e ≡ done u → b ≡ true
of_test-eq-done true e h = refl
of_test-eq-done false e h = cc

of_absent-eq-done :
    (r : Result (Option Membership)) {u : Unit {0}} → of_absent r ≡ done u → r ≡ ok none
of_absent-eq-done (ok none) h = refl
of_absent-eq-done (ok (some m)) h = cc
of_absent-eq-done (err e) h = cc

owner_not_invitable : (role : Text) → contains invitable_roles role ≡ true → role ≢ str "owner"
unfolding contains text_beq
owner_not_invitable role h e =
    let owner : contains invitable_roles (str "owner") ≡ true = rw e at h in cc

module _ {Payload : Type 0} (kv : Kv Payload) (wire : Wire Payload) (now : ℕ) where
  -- Who adds a member is a manager of the tenant or more, gives one of the known roles and none
  -- above the own role, to a user who was no member; the new membership has that role.
  pub add_member-Hierarchy :
      (caller : Caller) (tenant_id user_id role : Text) (s : kv.State) (m : Membership)
      → (add_member kv wire now caller tenant_id user_id role s).0 ≡ done m
      → (require_tenant_role caller tenant_id (str "manager") ≡ granted)
        × (contains assignable_roles role ≡ true)
        × (role_level role ≤ role_level (tenant_role caller tenant_id))
        × (get_membership kv wire tenant_id user_id s ≡ ok none)
        × (m ≡ record { tenant_id = tenant_id; user_id = user_id; role = role; joined_at = now })
  unfolding add_member
  add_member-Hierarchy caller tenant_id user_id role s m h =
      let (_, manager, h1) = bind-eq-done _ _ s h in
      let (_, known, h2) = bind-eq-done _ _ s h1 in
      let (_, ranks, h3) = bind-eq-done _ _ s h2 in
      let (_, _, h4) = bind-eq-done _ _ s h3 in
      let (_, _, h5) = bind-eq-done _ _ s h4 in
      let (_, absent, h6) = bind-eq-done _ _ s h5 in
      let (_, _, h7) = bind-eq-done _ _ s h6 in
      (
        of_verdict-eq-done _ manager,
        of_test-eq-done _ _ known,
        leb→le _ _ (of_test-eq-done _ _ ranks),
        of_absent-eq-done _ absent,
        sym (done_injective _ _ h7),
      )

  -- Who invites is a manager of the tenant or more, and the invitation's role is neither above the
  -- own role nor that of an owner.
  pub invite_user-Hierarchy :
      (caller : Caller) (tenant_id email role random : Text) (s : kv.State) (inv : Invitation)
      → (invite_user kv wire now caller tenant_id email role random s).0 ≡ done inv
      → (require_tenant_role caller tenant_id (str "manager") ≡ granted)
        × (inv.role ≢ str "owner")
        × (role_level inv.role ≤ role_level (tenant_role caller tenant_id))
  unfolding invite_user
  invite_user-Hierarchy caller tenant_id email role random s inv h =
      let (_, manager, h1) = bind-eq-done _ _ s h in
      let (_, known, h2) = bind-eq-done _ _ s h1 in
      let (_, ranks, h3) = bind-eq-done _ _ s h2 in
      let (_, _, h4) = bind-eq-done _ _ s h3 in
      let (_, _, h5) = bind-eq-done _ _ s h4 in
      let same : role ≡ inv.role = ap (λ (i : Invitation). i.role) (done_injective _ _ h5) in
      (
        of_verdict-eq-done _ manager,
        rw (← same) (owner_not_invitable role (of_test-eq-done _ _ known)),
        rw (← same) (leb→le _ _ (of_test-eq-done _ _ ranks)),
      )
