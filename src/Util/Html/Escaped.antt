-- ===== src/Util/Html/Escaped.antt =====
-- The five replacements of `html_escape` amount to one pass over the text.
use jetauth.Prelude.{
  Text, str, All, All-append, ℕ, refl, [], arith, ◌≡◌, ◌≢◌, ◌∷◌, ◌++◌, ◌==◌, if◌then◌else◌, nat_eq,
}
use jetauth.Util.Html.{quote, double_quote, html_escape}

-- The reference: each character by itself.
unfoldable pub entity : ℕ → Text
entity a =
    if a == b'&'
    then str "&amp;"
    else if a == b'<'
    then str "&lt;"
    else if a == b'>'
    then str "&gt;"
    else if a == double_quote
    then str "&quot;"
    else if a == quote
    then str "&#x27;"
    else a ∷ []

unfoldable pub escape_each : Text → Text
escape_each [] = []
escape_each (a ∷ s) = entity a ++ escape_each s

-- The replacements, one after the other, are the same as one pass: no later one touches what an
-- earlier one wrote.
pub html_escape-eq-escape_each : (s : Text) → html_escape s ≡ escape_each s
unfolding html_escape escape_each entity
html_escape-eq-escape_each [] = refl
html_escape-eq-escape_each (a ∷ s) = ground (arith, html_escape-eq-escape_each s)

-- No character that can open a tag or end an attribute value.
abbrev pub IsInert : ℕ → Type 0
IsInert c = (c ≢ b'<') × (c ≢ b'>') × (c ≢ quote) × (c ≢ double_quote)

entity-IsInert : (a : ℕ) → All IsInert (entity a)
unfolding entity
entity-IsInert a = ground arith

escape_each-IsInert : (s : Text) → All IsInert (escape_each s)
unfolding escape_each
escape_each-IsInert [] = tt
escape_each-IsInert (a ∷ s) =
    All-append IsInert (entity a) (escape_each s) (entity-IsInert a) (escape_each-IsInert s)

-- The escaped text holds neither <, > nor a quote of either kind.
pub html_escape-IsInert : (s : Text) → All IsInert (html_escape s)
html_escape-IsInert s = rw html_escape-eq-escape_each (escape_each-IsInert s)
