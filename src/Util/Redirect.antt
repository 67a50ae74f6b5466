-- ===== src/Util/Redirect.antt =====
-- `build_auth_code_redirect` of oidc-gateway/src/util.rs (RFC 9207).
pub mod Response
use jetauth.Prelude.{
  Text, str, is_empty, ℕ, refl, Bool, false, [], ◌≡◌, ◌||◌, ◌∷◌, ◌++◌, ◌==◌, if◌then◌else◌, nat_eq,
}
use jetauth.Util.Percent.{percent_encode}

-- `redirect_uri.contains('?')`
unfoldable pub contains_byte : ℕ → Text → Bool
contains_byte c [] = false
contains_byte c (a ∷ s) = a == c || contains_byte c s

unfoldable pub build_auth_code_redirect : Text → Text → Text → Text → Text
unfolding contains_byte
build_auth_code_redirect redirect_uri code state issuer =
    let sep = if contains_byte b'?' redirect_uri then b'&' else b'?' in
    redirect_uri
    ++ sep
      ∷ (str "code="
          ++ (percent_encode code
              ++ (str "&iss="
                  ++ (percent_encode issuer
                      ++ (if is_empty state then [] else str "&state=" ++ percent_encode state)))))

redirect_test :
    build_auth_code_redirect (str "https://a/cb?x=1") (str "k 1") (str "s") (str "https://i")
    ≡ str "https://a/cb?x=1&code=k%201&iss=https%3A%2F%2Fi&state=s"
unfolding build_auth_code_redirect percent_encode
redirect_test = refl
