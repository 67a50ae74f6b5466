-- ===== src/Authorize/Claims.antt =====
-- The parameters `acr_values` and `claims` in oidc-gateway/src/authorize.rs.
use jetauth.Prelude.{
  Text, str, is_empty, contains, Result, ok, err, Bool, false, not, Option, none, some, List, [],
  split, or_empty, ◌&&◌, ◌||◌, ◌∷◌, ◌++◌, ◌==◌, if◌then◌else◌, ◌>>=◌, text_eq,
}
use jetauth.Json.{Json, null, bool, obj, Fields, end, field, get, as_str, as_array}
use jetauth.Abuse.{trim_start, trim_end}
use jetauth.Token.ClientCredentials.{is_some}

pub record ClaimsRequest : Type 0 where
  pub id_token_claims : List Text
  pub userinfo_claims : List Text
  pub acr_values : List Text

abbrev pub no_claims : ClaimsRequest
no_claims = record { id_token_claims = []; userinfo_claims = []; acr_values = [] }

unfoldable pub push_unique : List Text → Text → List Text
push_unique values candidate =
    if not (is_empty candidate) && not (contains values candidate)
    then values ++ (candidate ∷ [])
    else values

unfoldable pub push_all : List Text → List Text → List Text
unfolding push_unique trim_start trim_end
push_all values [] = values
push_all values (item ∷ items) = push_all (push_unique values (trim_end (trim_start item))) items

unfoldable pub parse_acr_values : Option Text → List Text
unfolding push_all split
parse_acr_values raw = push_all [] (split b' ' (or_empty raw))

abbrev pub satisfiable_id_token_claims : List Text
satisfiable_id_token_claims =
    str "sub"
    ∷ str "iss"
    ∷ str "aud"
    ∷ str "exp"
    ∷ str "iat"
    ∷ str "nbf"
    ∷ str "auth_time"
    ∷ str "nonce"
    ∷ str "acr"
    ∷ str "amr"
    ∷ str "sid"
    ∷ str "email"
    ∷ str "email_verified"
    ∷ str "name"
    ∷ str "given_name"
    ∷ str "family_name"
    ∷ str "preferred_username"
    ∷ str "tenant_id"
    ∷ str "tenants"
    ∷ str "role"
    ∷ []

abbrev pub satisfiable_userinfo_claims : List Text
satisfiable_userinfo_claims =
    str "sub"
    ∷ str "email"
    ∷ str "email_verified"
    ∷ str "name"
    ∷ str "given_name"
    ∷ str "family_name"
    ∷ str "preferred_username"
    ∷ str "tenant_id"
    ∷ str "tenants"
    ∷ str "role"
    ∷ str "auth_time"
    ∷ str "amr"
    ∷ []

-- The two targets of the parameter.
pub data Target : Type 0 where
  id_token userinfo : Target

abbrev pub satisfiable : Target → List Text
satisfiable id_token = satisfiable_id_token_claims
satisfiable userinfo = satisfiable_userinfo_claims

abbrev target_name : Target → Text
target_name id_token = str "id_token"
target_name userinfo = str "userinfo"

abbrev pub claims_of : Target → ClaimsRequest → List Text
claims_of id_token parsed = parsed.id_token_claims
claims_of userinfo parsed = parsed.userinfo_claims

abbrev with_claims : Target → List Text → ClaimsRequest → ClaimsRequest
with_claims id_token claims parsed = record parsed { id_token_claims = claims }
with_claims userinfo claims parsed = record parsed { userinfo_claims = claims }

abbrev is_acr : Target → Text → Bool
is_acr id_token claim_name = claim_name == str "acr"
is_acr userinfo claim_name = false

abbrev is_true : Option Json → Bool
is_true (some (bool b)) = b
is_true _ = false

-- A claim that must be delivered is one that can be, and with no value of its own.
unfoldable pub check_essential : Target → (claim_name : Text) → Json → Result (Unit {0})
check_essential target claim_name descriptor =
    if not (is_true (get descriptor (str "essential")))
    then ok tt
    else if not (contains (satisfiable target) claim_name)
    then err (
        str "cannot satisfy essential claim '"
        ++ (claim_name ++ (str "' in " ++ target_name target)))
    else if (is_some (get descriptor (str "value")) || is_some (get descriptor (str "values")))
        && not (is_acr target claim_name)
    then err (
        str "cannot satisfy essential claim '"
        ++ (claim_name ++ (str "' with a specific value in " ++ target_name target)))
    else ok tt

abbrev push_value : List Text → Option Text → List Text
push_value values none = values
push_value values (some value) = push_unique values value

abbrev as_text : Option Json → Option Text
as_text none = none
as_text (some v) = as_str v

unfoldable pub push_values : List Text → List Json → Result (List Text)
unfolding push_unique
push_values values [] = ok values
push_values values (v ∷ vs) = elim (as_str v) [
  | some value ↦ push_values (push_unique values value) vs
  | none ↦ err (str "invalid claims parameter acr values")
]

abbrev as_items : Option Json → Option (List Json)
as_items none = none
as_items (some v) = as_array v

abbrev push_items : List Text → Option (List Json) → Result (List Text)
push_items values none = ok values
push_items values (some vs) = push_values values vs

-- The values that a descriptor of `acr` asks for.
unfoldable pub add_acr : Json → List Text → Result (List Text)
unfolding push_values
add_acr descriptor values =
    push_items (push_value values (as_text (get descriptor (str "value"))))
      (as_items (get descriptor (str "values")))

-- One claim of a target.
unfoldable pub add_claim :
    Target → (claim_name : Text) → Json → ClaimsRequest → Result ClaimsRequest
unfolding push_unique check_essential add_acr
add_claim target claim_name null parsed =
    ok (with_claims target (push_unique (claims_of target parsed) claim_name) parsed)
add_claim target claim_name (obj fs) parsed = do
  _ ← check_essential target claim_name (obj fs)
  acr_values ←
      if is_acr target claim_name then add_acr (obj fs) parsed.acr_values else ok parsed.acr_values
  ok (record (with_claims target (push_unique (claims_of target parsed) claim_name) parsed) {
    acr_values = acr_values;
  })
add_claim target claim_name _ parsed = err (str "invalid claims parameter claim descriptor")

unfoldable pub add_claims : Target → Fields → ClaimsRequest → Result ClaimsRequest
unfolding add_claim
add_claims target end parsed = ok parsed
add_claims target (field claim_name descriptor requested) parsed = do
  next ← add_claim target claim_name descriptor parsed
  add_claims target requested next

unfoldable pub add_target : Target → Option Json → ClaimsRequest → Result ClaimsRequest
unfolding add_claims
add_target target none parsed = ok parsed
add_target target (some (obj requested)) parsed = add_claims target requested parsed
add_target target (some _) parsed = err (str "invalid claims parameter target (must be object)")

abbrev not_object : Text
not_object = str "invalid claims parameter (must be JSON object)"

unfoldable pub parse_claims_json : Result Json → Result ClaimsRequest
unfolding add_target
parse_claims_json (err _) = err not_object
parse_claims_json (ok (obj claims)) = do
  parsed ← add_target id_token (get (obj claims) (str "id_token")) no_claims
  add_target userinfo (get (obj claims) (str "userinfo")) parsed
parse_claims_json (ok _) = err not_object

-- serde_json reads the text.
unfoldable pub parse_claims_param :
    (from_slice : Text → Result Json) → Option Text → Result ClaimsRequest
unfolding parse_claims_json
parse_claims_param from_slice none = ok no_claims
parse_claims_param from_slice (some []) = ok no_claims
parse_claims_param from_slice (some (c ∷ raw)) = parse_claims_json (from_slice (c ∷ raw))
