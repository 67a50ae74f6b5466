-- ===== src/Dpop/Uri.antt =====
-- The comparison of addresses in oidc-gateway/src/dpop.rs.
use jetauth.Prelude.{
  Text, str, text_beq, starts_with, lower, ℕ, refl, Bool, true, false, Option, none, some, [], map,
  lower, ◌≡◌, ◌&&◌, ◌∷◌, ◌++◌, ◌==◌, if◌then◌else◌, text_eq, nat_eq,
}

unfoldable pub eq_ignore_ascii_case : Text → Text → Bool
unfolding lower
eq_ignore_ascii_case s t = map lower s == map lower t

-- `u.split(c).next()`: what stands before the first of these characters.
unfoldable pub before : ℕ → Text → Text
before c [] = []
before c (a ∷ s) = let rest = before c s in if a == c then [] else a ∷ rest

abbrev pub all_slashes : Text → Bool
all_slashes [] = true
all_slashes (c ∷ t) = c == b'/' && all_slashes t

-- `trim_end_matches('/')`
unfoldable pub trim_slashes : Text → Text
trim_slashes [] = []
trim_slashes (c ∷ t) = let rest = trim_slashes t in if all_slashes (c ∷ t) then [] else c ∷ rest

unfoldable pub clean_uri : Text → Text
unfolding before trim_slashes
clean_uri u = trim_slashes (before b'#' (before b'?' u))

abbrev with_front : ℕ → Option (Text × Text) → Option (Text × Text)
with_front a none = none
with_front a (some (s, t)) = some (a ∷ s, t)

-- The parts around the first "://".
unfoldable pub find_scheme : Text → Option (Text × Text)
unfolding starts_with
find_scheme [] = none
find_scheme (a ∷ []) = none
find_scheme (a ∷ b ∷ []) = none
find_scheme (a ∷ b ∷ c ∷ s) =
    let rest = find_scheme (b ∷ c ∷ s) in
    if starts_with (a ∷ b ∷ c ∷ []) (str "://") then some ([], s) else with_front a rest

-- The part up to the first slash, and the rest from it on.
unfoldable pub split_slash : Text → Text × Text
split_slash [] = ([], [])
split_slash (c ∷ t) =
    let (host, path) = split_slash t in if c == b'/' then ([], c ∷ t) else (c ∷ host, path)

abbrev authority_of : Text → Option (Text × Text) → Text × Text
authority_of uri none = ([], uri)
authority_of uri (some (scheme, rest)) =
    let (host, path) = split_slash rest in (scheme ++ (str "://" ++ host), path)

unfoldable pub split_authority_path : Text → Text × Text
unfolding find_scheme split_slash
split_authority_path uri = authority_of uri (find_scheme uri)

unfoldable pub uri_matches : (proof_uri expected_uri : Text) → Bool
unfolding clean_uri split_authority_path eq_ignore_ascii_case
uri_matches proof_uri expected_uri =
    let (p_authority, p_path) = split_authority_path (clean_uri proof_uri) in
    let (e_authority, e_path) = split_authority_path (clean_uri expected_uri) in
    eq_ignore_ascii_case p_authority e_authority && p_path == e_path

uri_tests :
    (uri_matches (str "HTTPS://ID.example/token?x=1#y") (str "https://id.example/token/") ≡ true)
    × (uri_matches (str "https://id.example/Token") (str "https://id.example/token") ≡ false)
    × (uri_matches (str "https://evil.example/token") (str "https://id.example/token") ≡ false)
unfolding uri_matches starts_with text_beq
uri_tests = (refl, refl, refl)
