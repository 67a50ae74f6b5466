-- ===== src/Authorize/Redirect.antt =====
-- The tests of a request in oidc-gateway/src/authorize.rs that come before anything is answered to
-- its redirect URI, and the errors that are answered to it.
use jetauth.Prelude.{
  Text, str, starts_with, is_empty, contains, ltb, ℕ, Bool, false, not, Option, none, some, [], ◌^◌,
  ◌&&◌, ◌||◌, ◌∷◌, ◌++◌, ◌==◌, if◌then◌else◌, text_eq, nat_eq,
}
use jetauth.Abuse.{parse}
use jetauth.Util.Percent.{percent_encode}
use jetauth.Util.Query.{Form, form_value}
use jetauth.Util.Redirect.{contains_byte}
use jetauth.Store.Types.{OidcClient}

-- The address of an error's redirect.
unfoldable pub authorize_error_redirect :
    (redirect_uri state error description issuer : Text) → Text
unfolding contains_byte percent_encode
authorize_error_redirect redirect_uri state error description issuer =
    let separator = if contains_byte b'?' redirect_uri then b'&' else b'?' in
    redirect_uri
    ++ (separator
        ∷ (str "error="
            ++ (percent_encode error
                ++ (str "&error_description="
                    ++ (percent_encode description
                        ++ (str "&iss="
                            ++ (percent_encode issuer
                                ++ (if is_empty state
                                    then []
                                    else str "&state=" ++ percent_encode state))))))))

-- Control characters, which browsers drop from addresses.
unfoldable pub has_control : Text → Bool
has_control [] = false
has_control (b ∷ t) = (ltb b 0x20 || b == 0x7f) || has_control t

-- A registered address, or a relative one of a first-party client whose full form is registered.
unfoldable pub is_valid_redirect : OidcClient → (issuer redirect_uri : Text) → Bool
unfolding starts_with
is_valid_redirect client issuer redirect_uri =
    contains client.redirect_uris redirect_uri
    || client.first_party
      && starts_with redirect_uri (str "/")
      && contains client.redirect_uris (issuer ++ redirect_uri)

-- What a test of the request says: go on with a value, answer an error to the redirect URI, or fail.
pub data Verdict (A : Type 0) : Type 0 where
  go : A → Verdict A
  refuse : (error description : Text) → Verdict A
  fatal : Text → Verdict A

abbrev invalid_request : Text
invalid_request = str "invalid_request"

abbrev pub challenge_verdict : Option Text → Verdict Text
challenge_verdict (some (c ∷ challenge)) = go (c ∷ challenge)
challenge_verdict _ =
    refuse invalid_request (str "missing code_challenge (PKCE S256 is required for all clients)")

abbrev pub method_or_default : Option Text → Text
method_or_default none = str "S256"
method_or_default (some method) = method

abbrev pub type_verdict : Option Text → Verdict Text → Verdict Text
type_verdict none rest = refuse invalid_request (str "missing response_type")
type_verdict (some response_type) rest =
    if response_type == str "code"
    then rest
    else refuse (str "unsupported_response_type")
        (str "unsupported response_type: " ++ response_type)

-- The response type, the rule for pushed requests, and PKCE: the code challenge.
unfoldable pub check_request : OidcClient → (used_par : Bool) → Form → Verdict Text
check_request client used_par params = type_verdict (form_value params (str "response_type")) (
    if client.require_pushed_authorization_requests && not used_par
    then fatal (str "client is required to use pushed authorization requests (PAR)")
    else if not (method_or_default (form_value params (str "code_challenge_method")) == str "S256")
    then refuse invalid_request (str "only S256 code_challenge_method is supported")
    else challenge_verdict (form_value params (str "code_challenge")))

-- `value.parse::<u64>()`
unfoldable pub parse_u64 : Text → Option ℕ
parse_u64 value = elim (parse value) [
  | some n ↦ if ltb n (2 ^ 64) then some n else none
  | none ↦ none
]

abbrev parsed_age : Option ℕ → Verdict (Option ℕ)
parsed_age (some age) = go (some age)
parsed_age none = refuse invalid_request (str "invalid max_age (must be a non-negative integer)")

unfoldable pub check_max_age : Option Text → Verdict (Option ℕ)
unfolding parse_u64
check_max_age none = go none
check_max_age (some value) = parsed_age (parse_u64 value)
