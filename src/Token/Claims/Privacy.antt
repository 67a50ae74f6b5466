-- ===== src/Token/Claims/Privacy.antt =====
-- Which claims `build_claims` of oidc-gateway/src/token.rs leaves out.
use jetauth.Prelude.{
  Text, str, text_beq, text_beq_iff, All, contains, refl, Bool, true, false, Option, none, some,
  List, [], arith, ◌≡◌, ◌∷◌, ◌==◌, if◌then◌else◌, text_eq,
}
use jetauth.Json.{Json, Fields, end, find_field, set_field, find_field-set_field}
use jetauth.Store.Types.{User, Membership}
use jetauth.Token.Claims.{
  ClaimInput, set_if, set_some, set_nonempty, add_derived_profile_claim, add_derived, add_extra,
  add_memberships, has_email_scope, has_profile_scope, base_claims, set_confirmation, add_personal,
  add_session, add_role, access_claims, id_claims, build_claims,
}

module _ (j : Text) where
  -- The object has no field of this name.
  abbrev pub Lacks : Fields → Type 0
  Lacks claims = find_field claims j ≡ none

  set_field-Lacks :
      (claims : Fields) (k : Text) (v : Json)
      → (k == j) ≡ false
      → Lacks claims
      → Lacks (set_field claims k v)
  set_field-Lacks claims k v n h = rw (find_field-set_field claims k j v, n) h

  set_if-Lacks :
      (b : Bool) (claims : Fields) (k : Text) (v : Json)
      → (k == j) ≡ false
      → Lacks claims
      → Lacks (set_if b k v claims)
  set_if-Lacks true claims k v n h = set_field-Lacks claims k v n h
  set_if-Lacks false claims k v n h = h

  set_some-Lacks :
      (o : Option Text) (claims : Fields) (k : Text)
      → (k == j) ≡ false
      → Lacks claims
      → Lacks (set_some o k claims)
  set_some-Lacks none claims k n h = h
  set_some-Lacks (some t) claims k n h = set_field-Lacks claims k _ n h

  set_nonempty-Lacks :
      (o : Option Text) (claims : Fields) (k : Text)
      → (k == j) ≡ false
      → Lacks claims
      → Lacks (set_nonempty o k claims)
  set_nonempty-Lacks none claims k n h = h
  set_nonempty-Lacks (some t) claims k n h = set_if-Lacks _ claims k _ n h

  -- A test for a name, given that the name is not this one.
  branch-Lacks :
      (name k : Text) (a b : Fields)
      → (name == j) ≡ false
      → ((k == j) ≡ false → Lacks a)
      → Lacks b
      → Lacks (if name == k then a else b)
  branch-Lacks name k a b n ha hb = inspect (name == k) refl
    where
      inspect : (t : Bool) → (name == k) ≡ t → Lacks (if t then a else b)
      inspect true e = ha (rw (← (text_beq_iff name k).0 e) n)
      inspect false e = hb

  -- A derived claim is set under its own name.
  add_derived_profile_claim-Lacks :
      (user : User) (name : Text) (claims : Fields)
      → (name == j) ≡ false
      → Lacks claims
      → Lacks (add_derived_profile_claim user name claims)
  unfolding add_derived_profile_claim
  add_derived_profile_claim-Lacks user name claims n h =
      branch-Lacks name (str "name") _ _ n (λ e. set_field-Lacks claims _ _ e h)
        (branch-Lacks name (str "given_name") _ _ n (λ e. set_nonempty-Lacks _ claims _ e h)
          (branch-Lacks name (str "family_name") _ _ n
            (λ e. set_nonempty-Lacks (some _) claims _ e h)
            (branch-Lacks name (str "preferred_username") _ _ n
              (λ e. set_nonempty-Lacks (some _) claims _ e h)
              (branch-Lacks name (str "email") _ _ n (λ e. set_field-Lacks claims _ _ e h)
                (branch-Lacks name (str "email_verified") _ _ n
                  (λ e. set_field-Lacks claims _ _ e h) h)))))

  add_derived-Lacks :
      (user : User) (names : List Text) (claims : Fields)
      → contains names j ≡ false
      → Lacks claims
      → Lacks (add_derived user names claims)
  unfolding add_derived contains
  add_derived-Lacks user [] claims n h = h
  add_derived-Lacks user (name ∷ names) claims n h =
      add_derived-Lacks user names _ (ground arith)
        (add_derived_profile_claim-Lacks user name claims (ground arith) h)

  -- No claim of a hook has this name.
  abbrev pub IsFree : List (Text × Text) → Type 0
  IsFree extra = All (λ (c : Text × Text). (c.0 == j) ≡ false) extra

  add_extra-Lacks :
      (extra : List (Text × Text)) (claims : Fields)
      → IsFree extra
      → Lacks claims
      → Lacks (add_extra extra claims)
  unfolding add_extra
  add_extra-Lacks [] claims n h = h
  add_extra-Lacks ((k, v) ∷ extra) claims (n, ns) h =
      add_extra-Lacks extra _ ns (set_field-Lacks claims k _ n h)

  -- The names of the claims about memberships.
  abbrev IsApart : Type 0
  IsApart =
      ((str "tenant_id" == j) ≡ false)
      × ((str "role" == j) ≡ false)
      × ((str "tenants" == j) ≡ false)

  add_memberships-Lacks :
      (superadmin : Bool) (ms : List Membership) (claims : Fields)
      → IsApart
      → Lacks claims
      → Lacks (add_memberships superadmin ms claims)
  unfolding add_memberships
  add_memberships-Lacks superadmin [] claims apart h = h
  add_memberships-Lacks superadmin (m ∷ []) claims (t, r, l) h =
      set_if-Lacks _ _ _ _ r (set_field-Lacks claims _ _ t h)
  add_memberships-Lacks superadmin (m ∷ n ∷ ms) claims (t, r, l) h =
      set_if-Lacks _ _ _ _ r (set_field-Lacks _ _ _ t (set_field-Lacks claims _ _ l h))

  -- The other names that `build_claims` sets behind the personal ones.
  abbrev IsOther : Type 0
  IsOther =
      IsApart
      × ((str "amr" == j) ≡ false)
      × ((str "acr" == j) ≡ false)
      × ((str "cnf" == j) ≡ false)
      × ((str "lid_userinfo_claims" == j) ≡ false)
      × ((str "nonce" == j) ≡ false)
      × ((str "sid" == j) ≡ false)

  set_confirmation-Lacks :
      (o : Option Text) (claims : Fields)
      → (str "cnf" == j) ≡ false
      → Lacks claims
      → Lacks (set_confirmation o claims)
  set_confirmation-Lacks none claims n h = h
  set_confirmation-Lacks (some jkt) claims n h = set_field-Lacks claims _ _ n h

  add_role-Lacks :
      (i : ClaimInput) (claims : Fields) → IsApart → Lacks claims → Lacks (add_role i claims)
  unfolding add_role
  add_role-Lacks i claims (t, r, l) h =
      add_memberships-Lacks _ i.memberships _ (t, r, l) (set_if-Lacks _ claims _ _ r h)

  add_session-Lacks :
      (i : ClaimInput) (claims : Fields) → IsOther → Lacks claims → Lacks (add_session i claims)
  unfolding add_session
  add_session-Lacks i claims (_, amr, acr, _, _, _, _) h =
      set_nonempty-Lacks i.acr _ _ acr (set_if-Lacks _ claims _ _ amr h)

  access_claims-Lacks :
      (i : ClaimInput)
      → IsOther
      → IsFree i.extra_claims
      → ((rest : Fields) → Lacks rest → Lacks (add_personal i (base_claims i rest)))
      → (str "scope" == j) ≡ false
      → (str "token_type" == j) ≡ false
      → Lacks (access_claims i)
  unfolding access_claims find_field
  access_claims-Lacks i other free personal scope token_type =
      let (apart, amr, acr, cnf, lid, nonce, sid) = other in
      add_extra-Lacks i.extra_claims _ free (
        add_role-Lacks i _ apart (
          set_if-Lacks _ _ _ _ lid (
            add_session-Lacks i _ other
              (set_confirmation-Lacks i.dpop_jkt _ cnf (personal _ (ground arith))))))

  id_claims-Lacks :
      (i : ClaimInput)
      → IsOther
      → IsFree i.extra_claims
      → ((rest : Fields) → Lacks rest → Lacks (add_personal i (base_claims i rest)))
      → contains i.requested_id_token_claims j ≡ false
      → Lacks (id_claims i)
  unfolding id_claims find_field
  id_claims-Lacks i other free personal unasked =
      let (apart, amr, acr, cnf, lid, nonce, sid) = other in
      add_extra-Lacks i.extra_claims _ free (
        add_derived-Lacks i.user i.requested_id_token_claims _ unasked (
          add_role-Lacks i _ apart (
            add_session-Lacks i _ other (
              set_nonempty-Lacks i.nonce _ _ nonce
                (set_some-Lacks i.sid _ _ sid (personal end refl))))))

email_personal :
    (i : ClaimInput)
    → has_email_scope i ≡ false
    → (rest : Fields) → Lacks (str "email") rest
    → Lacks (str "email") (add_personal i (base_claims i rest))
unfolding add_personal find_field text_beq
email_personal i closed rest h =
    rw closed
      (set_if-Lacks (str "email") (has_profile_scope i) (base_claims i rest) (str "name") _ refl h)

name_personal :
    (i : ClaimInput)
    → has_profile_scope i ≡ false
    → (rest : Fields) → Lacks (str "name") rest
    → Lacks (str "name") (add_personal i (base_claims i rest))
unfolding add_personal find_field text_beq
name_personal i closed rest h = rw closed (
    set_if-Lacks (str "name") (has_email_scope i) _ (str "email_verified") _ refl
      (set_if-Lacks (str "name") (has_email_scope i) (base_claims i rest) (str "email") _ refl h))

email_other : IsOther (str "email")
unfolding text_beq
email_other = ((refl, refl, refl), refl, refl, refl, refl, refl, refl)

name_other : IsOther (str "name")
unfolding text_beq
name_other = ((refl, refl, refl), refl, refl, refl, refl, refl, refl)

email_unasked :
    (i : ClaimInput)
    → has_email_scope i ≡ false
    → contains i.requested_id_token_claims (str "email") ≡ false
unfolding has_email_scope
email_unasked i h = ground arith

name_unasked :
    (i : ClaimInput)
    → has_profile_scope i ≡ false
    → contains i.requested_id_token_claims (str "name") ≡ false
unfolding has_profile_scope
name_unasked i h = ground arith

-- Unless the scope has `email` or the claim `email` is requested, and unless a hook injects it,
-- neither token has the claim `email`.
pub build_claims-private_email :
    (i : ClaimInput)
    → has_email_scope i ≡ false
    → IsFree (str "email") i.extra_claims
    → Lacks (str "email") (build_claims i).0 × Lacks (str "email") (build_claims i).1
unfolding build_claims text_beq
build_claims-private_email i closed free = (
  access_claims-Lacks (str "email") i email_other free (email_personal i closed) refl refl,
  id_claims-Lacks (str "email") i email_other free (email_personal i closed)
      (email_unasked i closed),
)

-- Unless the scope has `profile` or the claim `name` is requested, and unless a hook injects it,
-- neither token has the claim `name`.
pub build_claims-private_name :
    (i : ClaimInput)
    → has_profile_scope i ≡ false
    → IsFree (str "name") i.extra_claims
    → Lacks (str "name") (build_claims i).0 × Lacks (str "name") (build_claims i).1
unfolding build_claims text_beq
build_claims-private_name i closed free = (
  access_claims-Lacks (str "name") i name_other free (name_personal i closed) refl refl,
  id_claims-Lacks (str "name") i name_other free (name_personal i closed) (name_unasked i closed),
)
