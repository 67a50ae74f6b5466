-- ===== src/Token/Claims.antt =====
-- `build_claims` of oidc-gateway/src/token.rs.
pub mod Privacy
use jetauth.Json.{
  Json, bool, num, text, arr, obj, Fields, Items, nil, cons, end, field, set_field, of_texts,
}
use jetauth.Store.Types.{User, Membership}
use jetauth.Prelude.{
  Text, str, is_empty, contains, ℕ, Bool, true, false, not, Option, none, some, List, [], split,
  split_whitespace, ◌+◌, ◌-◌, ◌||◌, ◌∷◌, ◌++◌, ◌==◌, if◌then◌else◌, text_eq,
}

-- `if test { claims[key] = value }`
abbrev pub set_if : Bool → Text → Json → Fields → Fields
set_if true key value claims = set_field claims key value
set_if false key value claims = claims

-- `if let Some(t) = o { claims[key] = t }`
abbrev pub set_some : Option Text → Text → Fields → Fields
set_some none key claims = claims
set_some (some t) key claims = set_field claims key (text t)

-- The same where the text is not empty.
abbrev pub set_nonempty : Option Text → Text → Fields → Fields
set_nonempty none key claims = claims
set_nonempty (some t) key claims = set_if (not (is_empty t)) key (text t) claims

abbrev pub is_nil {ℓ} : {A : Type ℓ} → List A → Bool
is_nil [] = true
is_nil (_ ∷ _) = false

-- The words behind the first, with a space between each.
unfoldable pub join_words : List Text → Text
join_words [] = []
join_words (w ∷ []) = w
join_words (w ∷ v ∷ ws) = w ++ b' ' ∷ join_words (v ∷ ws)

abbrev first_word : List Text → Option Text
first_word [] = none
first_word (w ∷ _) = some w

abbrev other_words : List Text → List Text
other_words [] = []
other_words (_ ∷ ws) = ws

abbrev pub first_of_split : List Text → Text
first_of_split [] = []
first_of_split (p ∷ _) = p

unfoldable pub add_derived_profile_claim : User → Text → Fields → Fields
unfolding join_words
add_derived_profile_claim user claim_name claims =
    if claim_name == str "name"
    then set_field claims (str "name") (text user.name)
    else if claim_name == str "given_name"
    then set_nonempty (first_word (split_whitespace user.name)) (str "given_name") claims
    else if claim_name == str "family_name"
    then set_nonempty (some (join_words (other_words (split_whitespace user.name))))
        (str "family_name") claims
    else if claim_name == str "preferred_username"
    then set_nonempty (some (first_of_split (split b'@' user.email))) (str "preferred_username")
        claims
    else if claim_name == str "email"
    then set_field claims (str "email") (text user.email)
    else if claim_name == str "email_verified"
    then set_field claims (str "email_verified") (bool (user.status == str "active"))
    else claims

-- The loop over the requested claims.
unfoldable pub add_derived : User → List Text → Fields → Fields
unfolding add_derived_profile_claim
add_derived user [] claims = claims
add_derived user (name ∷ names) claims =
    add_derived user names (add_derived_profile_claim user name claims)

-- The loop over the claims that the hooks injected.
unfoldable pub add_extra : List (Text × Text) → Fields → Fields
add_extra [] claims = claims
add_extra ((key, value) ∷ extra) claims = add_extra extra (set_field claims key (text value))

tenant_items : List Membership → Items
tenant_items [] = nil
tenant_items (m ∷ ms) =
    cons (obj (field (str "tenant_id") (text m.tenant_id) (field (str "role") (text m.role) end)))
      (tenant_items ms)

-- The first membership's tenant and role; a superadmin keeps the role that is set already.
abbrev set_first : Bool → Membership → Fields → Fields
set_first superadmin m claims =
    set_if (not superadmin) (str "role") (text m.role)
      (set_field claims (str "tenant_id") (text m.tenant_id))

unfoldable pub add_memberships : Bool → List Membership → Fields → Fields
unfolding tenant_items
add_memberships superadmin [] claims = claims
add_memberships superadmin (m ∷ []) claims = set_first superadmin m claims
add_memberships superadmin (m ∷ n ∷ ms) claims =
    set_first superadmin m (set_field claims (str "tenants") (arr (tenant_items (m ∷ n ∷ ms))))

-- The inputs of `build_claims`, with the clock and the memberships that it reads.
pub record ClaimInput : Type 0 where
  pub issuer : Text
  pub user : User
  pub client_id : Text
  pub nonce : Option Text
  pub auth_time : ℕ
  pub amr : List Text
  pub acr : Option Text
  pub scope : Text
  pub requested_id_token_claims : List Text
  pub requested_userinfo_claims : List Text
  pub extra_claims : List (Text × Text)
  pub dpop_jkt : Option Text
  pub sid : Option Text
  pub now : ℕ
  pub memberships : List Membership

unfoldable pub has_email_scope : ClaimInput → Bool
has_email_scope i =
    contains (split_whitespace i.scope) (str "email")
    || contains i.requested_id_token_claims (str "email")

unfoldable pub has_profile_scope : ClaimInput → Bool
has_profile_scope i =
    contains (split_whitespace i.scope) (str "profile")
    || contains i.requested_id_token_claims (str "name")

-- The claims that both tokens begin with.
abbrev pub base_claims : ClaimInput → Fields → Fields
base_claims i rest = field (str "iss") (text i.issuer) (
    field (str "sub") (text i.user.id) (
      field (str "aud") (text i.client_id) (
        field (str "exp") (num (i.now + 3600)) (
          field (str "nbf") (num (i.now - 30))
            (field (str "iat") (num i.now) (field (str "auth_time") (num i.auth_time) rest))))))

-- The user's data that the scopes open.
unfoldable pub add_personal : ClaimInput → Fields → Fields
add_personal i claims = set_if (has_profile_scope i) (str "name") (text i.user.name) (
    set_if (has_email_scope i) (str "email_verified") (bool (i.user.status == str "active"))
      (set_if (has_email_scope i) (str "email") (text i.user.email) claims))

-- The claims that both tokens take in the same order, from `amr` to the memberships.
unfoldable pub add_session : ClaimInput → Fields → Fields
unfolding add_memberships
add_session i claims =
    let with_amr = set_if (not (is_nil i.amr)) (str "amr") (arr (of_texts i.amr)) claims in
    let with_acr = set_nonempty i.acr (str "acr") with_amr in with_acr

unfoldable pub add_role : ClaimInput → Fields → Fields
unfolding add_memberships
add_role i claims =
    add_memberships i.user.superadmin i.memberships
      (set_if i.user.superadmin (str "role") (text (str "superadmin")) claims)

-- `cnf`
abbrev pub set_confirmation : Option Text → Fields → Fields
set_confirmation none claims = claims
set_confirmation (some jkt) claims =
    set_field claims (str "cnf") (obj (field (str "jkt") (text jkt) end))

unfoldable pub access_claims : ClaimInput → Fields
unfolding add_personal add_session add_role add_extra
access_claims i =
    let start =
      base_claims i
        (field (str "scope") (text i.scope) (field (str "token_type") (text (str "access")) end)) in
    let bound = set_confirmation i.dpop_jkt (add_personal i start) in
    let requested =
      set_if (not (is_nil i.requested_userinfo_claims)) (str "lid_userinfo_claims")
        (arr (of_texts i.requested_userinfo_claims)) (add_session i bound) in
    add_extra i.extra_claims (add_role i requested)

unfoldable pub id_claims : ClaimInput → Fields
unfolding add_personal add_session add_role add_derived add_extra
id_claims i =
    let named =
      set_nonempty i.nonce (str "nonce")
        (set_some i.sid (str "sid") (add_personal i (base_claims i end))) in
    let derived =
      add_derived i.user i.requested_id_token_claims (add_role i (add_session i named)) in
    add_extra i.extra_claims derived

-- The claims of the access token and of the id token.
unfoldable pub build_claims : ClaimInput → Fields × Fields
unfolding access_claims id_claims
build_claims i = (access_claims i, id_claims i)
