-- ===== src/Services/Tenants/Valid.antt =====
-- The records of tenants that oidc-gateway/src/services/tenants.rs makes.
use jetauth.Prelude.{
  Text, str, text_beq, is_empty, length, contains, ltb, Bool-cases, ok, ℕ, refl, sym, ap, inl, inr,
  Bool, true, false, not, Option, none, some, [], arith, ◌≤◌, ◌≡◌, ◌≢◌, ◌∷◌, ◌∙◌, text_eq,
}
use jetauth.Kv.{Kv}
use jetauth.Store.Types.{Tenant}
use jetauth.Store.Wire.{Wire}
use jetauth.Store.Tenants.{
  get_tenant, create_tenant as save_new_tenant, update_tenant as save_tenant,
}
use jetauth.Services.Authz.{Caller, require_superadmin}
use jetauth.Services.Api.{
  done, of_verdict, of_test, of_found, reply, answers, internal, api_error, bind-eq-done,
}
use jetauth.Services.Tenants.Lifecycle.{
  UpdateTenantParams, valid_tenant_statuses, with_display_name, with_status, new_tenant,
  create_tenant_with_id, update_tenant,
}

abbrev pub IsValidTenant : Tenant → Type 0
IsValidTenant t =
    (t.name ≢ [])
    × (length t.name ≤ 128)
    × (length t.display_name ≤ 256)
    × (contains valid_tenant_statuses t.status ≡ true)

of_test-done : (test : Bool) (e : _) {u : Unit {0}} → of_test test e ≡ done u → test ≡ true
of_test-done true e h = refl
of_test-done false e h = cc

done_injective : {A : Type 0} (a b : A) → done a ≡ done b → a ≡ b
done_injective a b h = cc

with_display_name-IsValidTenant :
    (o : Option Text) (old t : Tenant)
    → IsValidTenant old
    → with_display_name o old ≡ done t
    → IsValidTenant t
unfolding with_display_name
with_display_name-IsValidTenant none old t valid = λ h. rw (← done_injective old t h) valid
with_display_name-IsValidTenant (some d) old t (n, l, _, s) = elim (Bool-cases (is_empty d)) [
  | inl empty ↦ rw empty (λ h. cc)
  | inr filled ↦ rw filled (elim (Bool-cases (ltb 256 (length d))) [
    | inl long ↦ rw long (λ h. cc)
    | inr short ↦
        rw short
          (λ h. rw (← done_injective (record old { display_name = d }) t h) (n, l, ground arith, s))
  ])
]

with_status-IsValidTenant :
    (o : Option Text) (old t : Tenant)
    → IsValidTenant old
    → with_status o old ≡ done t
    → IsValidTenant t
unfolding with_status
with_status-IsValidTenant none old t valid = λ h. rw (← done_injective old t h) valid
with_status-IsValidTenant (some status) old t (n, l, d, _) =
    elim (Bool-cases (contains valid_tenant_statuses status)) [
      | inl known ↦
          rw known
            (λ h. rw (← done_injective (record old { status = status }) t h) (n, l, d, known))
      | inr unknown ↦ rw unknown (λ h. cc)
    ]

is_empty-not : (t : Text) → not (is_empty t) ≡ true → t ≢ []
is_empty-not [] h e = cc
is_empty-not (c ∷ t) h e = cc

active-known : contains valid_tenant_statuses (str "active") ≡ true
unfolding contains text_beq
active-known = refl

at_most : (bound n : ℕ) → not (ltb bound n) ≡ true → n ≤ bound
at_most bound n h = ground arith

module _ {Payload : Type 0} (kv : Kv Payload) (wire : Wire Payload) where
  -- The records that creations and updates have answered with, each update of one that it found.
  pub data Managed : Tenant → Type 0 where
    created :
        (caller : Caller) (id name display_name : Text) (now : ℕ) (s : kv.State) {t : Tenant}
        → (create_tenant_with_id kv wire now caller id name display_name s).0 ≡ done t
        → Managed t
    updated :
        (caller : Caller) (id : Text) (params : UpdateTenantParams) (now : ℕ) (s : kv.State)
        {old t : Tenant}
        → Managed old
        → get_tenant kv wire id s ≡ ok (some old)
        → (update_tenant kv wire now caller id params s).0 ≡ done t
        → Managed t

  create_tenant_with_id-IsValidTenant :
      (caller : Caller) (id name display_name : Text) (now : ℕ) (s : kv.State) (t : Tenant)
      → (create_tenant_with_id kv wire now caller id name display_name s).0 ≡ done t
      → IsValidTenant t
  unfolding create_tenant_with_id
  create_tenant_with_id-IsValidTenant caller id name display_name now s t h =
      let (_, _, h1) = bind-eq-done (reply (of_verdict (require_superadmin caller))) _ s h in
      let (_, named, h2) = bind-eq-done (reply (of_test (not (is_empty name)) _)) _ _ h1 in
      let (_, short, h3) = bind-eq-done (reply (of_test (not (ltb 128 (length name))) _)) _ _ h2 in
      let (_, brief, h4) =
        bind-eq-done (reply (of_test (not (ltb 256 (length display_name))) _)) _ _ h3 in
      let (_, _, h5) =
        bind-eq-done (internal (save_new_tenant kv wire (new_tenant id name display_name now))) _ _
          h4 in
      rw (← done_injective _ t h5) (
        is_empty-not name (of_test-done _ _ named),
        at_most 128 _ (of_test-done _ _ short),
        at_most 256 _ (of_test-done _ _ brief),
        active-known,
      )

  update_tenant-IsValidTenant :
      (caller : Caller) (id : Text) (params : UpdateTenantParams) (now : ℕ) (s : kv.State)
      (old t : Tenant)
      → IsValidTenant old
      → get_tenant kv wire id s ≡ ok (some old)
      → (update_tenant kv wire now caller id params s).0 ≡ done t
      → IsValidTenant t
  unfolding update_tenant
  update_tenant-IsValidTenant caller id params now s old t valid there h =
      let (_, _, h1) = bind-eq-done (reply (of_verdict (require_superadmin caller))) _ s h in
      let (found, read, h2) =
        bind-eq-done
          (answers
            (λ u. of_found (api_error 404 (str "tenant not found")) (get_tenant kv wire id u)))
          _ s h1 in
      let same =
        done_injective old found
          (ap (of_found (api_error 404 (str "tenant not found"))) (sym there) ∙ read) in
      let (named, display, h3) =
        bind-eq-done (reply (with_display_name params.display_name found)) _ _ h2 in
      let (tenant, status, h4) = bind-eq-done (reply (with_status params.status named)) _ _ h3 in
      let (_, _, h5) = bind-eq-done (internal (save_tenant kv wire tenant)) _ _ h4 in
      rw (← done_injective tenant t h5) (
        with_status-IsValidTenant params.status named tenant
          (with_display_name-IsValidTenant params.display_name old named valid
            (ap (with_display_name params.display_name) same ∙ display))
          status)

  -- Every record that creations and updates have answered with has a name of 1 to 128 bytes, a
  -- display name of at most 256 bytes, and one of the known states.
  pub Managed-IsValidTenant : {t : Tenant} → Managed t → IsValidTenant t
  Managed-IsValidTenant (created caller id name display_name now s {t} h) =
      create_tenant_with_id-IsValidTenant caller id name display_name now s t h
  Managed-IsValidTenant (updated caller id params now s {old} {t} managed there h) =
      update_tenant-IsValidTenant caller id params now s old t (Managed-IsValidTenant managed) there
        h
