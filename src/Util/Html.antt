-- ===== src/Util/Html.antt =====
-- `html_escape` of oidc-gateway/src/util.rs.
pub mod Escaped
use jetauth.Prelude.{Text, str, ℕ, refl, [], ◌≡◌, ◌∷◌, ◌++◌, ◌==◌, if◌then◌else◌, nat_eq}

-- `s.replace(c, r)`
unfoldable pub replace : ℕ → Text → Text → Text
replace c r [] = []
replace c r (a ∷ s) = let rest = replace c r s in if a == c then r ++ rest else a ∷ rest

abbrev pub quote : ℕ
quote = 39

abbrev pub double_quote : ℕ
double_quote = 34

unfoldable pub html_escape : Text → Text
unfolding replace
html_escape s = replace quote (str "&#x27;") (
    replace double_quote (str "&quot;")
      (replace b'>' (str "&gt;") (replace b'<' (str "&lt;") (replace b'&' (str "&amp;") s))))

html_test : html_escape (str "<a href='x'>&lt;") ≡ str "&lt;a href=&#x27;x&#x27;&gt;&amp;lt;"
unfolding html_escape
html_test = refl
