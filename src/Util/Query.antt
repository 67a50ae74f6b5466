-- ===== src/Util/Query.antt =====
-- Queries and forms of oidc-gateway/src/util.rs: `parse_query`, `parse_form`, the test for
-- repeated parameters, and the lookups.
pub mod Duplicates
use jetauth.Prelude.{
  Text, str, text_beq, is_empty, contains, Result, ok, err, refl, Option, none, some, List, [],
  split, splitn2, or_empty, ◌≡◌, ◌∷◌, ◌++◌, ◌==◌, if◌then◌else◌, nat_eq, text_eq,
}
use jetauth.Util.Utf8.{from_utf8_lossy}
use jetauth.Util.Percent.{url_decode}

abbrev pub Form : Type 0
Form = List (Text × Text)

-- The closure of `parse_query`.
unfoldable pub parse_pair : Text → Text × Text
unfolding splitn2
parse_pair pair = let (k, v) = splitn2 b'=' pair in (url_decode k, url_decode (or_empty v))

-- The pairs that are not empty, decoded.
unfoldable pub parse_pairs : List Text → Form
unfolding parse_pair
parse_pairs [] = []
parse_pairs (p ∷ ps) = let rest = parse_pairs ps in if is_empty p then rest else parse_pair p ∷ rest

unfoldable pub parse_query : Text → Form
unfolding split parse_pairs
parse_query query = parse_pairs (split b'&' query)

-- `std::str::from_utf8(body).unwrap_or("")`
unfoldable pub parse_form : Text → Form
unfolding parse_query
parse_form body = parse_query (if from_utf8_lossy body == body then body else [])

-- `form.iter().find(|(k, _)| k == key)`
unfoldable pub form_value : Form → Text → Option Text
form_value [] key = none
form_value ((k, v) ∷ form) key = if k == key then some v else form_value form key

unfoldable pub form_values : Form → Text → List Text
form_values [] key = []
form_values ((k, v) ∷ form) key =
    let rest = form_values form key in if k == key then v ∷ rest else rest

-- The loop of `check_no_duplicates`, with the keys that it has seen.
unfoldable pub check_seen : List Text → Form → Result (Unit {0})
unfolding contains
check_seen seen [] = ok tt
check_seen seen ((key, _) ∷ params) =
    if contains seen key
    then err (str "duplicate parameter: " ++ key)
    else check_seen (key ∷ seen) params

unfoldable pub check_no_duplicates : Form → Result (Unit {0})
unfolding check_seen
check_no_duplicates params = check_seen [] params

query_tests :
    (parse_query (str "a=1&&b=x%26y&c&a=2=3")
      ≡ (str "a", str "1") ∷ (str "b", str "x&y") ∷ (str "c", []) ∷ (str "a", str "2=3") ∷ [])
    × (check_no_duplicates (parse_query (str "a=1&b=2&a=3")) ≡ err (str "duplicate parameter: a"))
unfolding parse_query check_no_duplicates url_decode text_beq
query_tests = (refl, refl)
