-- ===== src/Util/Script.antt =====
-- `js_string_escape` of oidc-gateway/src/util.rs, on the characters of the text.
pub mod Literal
use jetauth.Prelude.{str, ℕ, List, [], ◌∷◌, ◌++◌, ◌==◌, if◌then◌else◌, nat_eq}

abbrev pub backslash : ℕ
backslash = 92

abbrev pub quote : ℕ
quote = 39

abbrev pub double_quote : ℕ
double_quote = 34

-- A list of characters, by their code points.
abbrev pub Chars : Type 0
Chars = List ℕ

unfoldable pub js_char : ℕ → Chars
js_char c =
    if c == backslash
    then backslash ∷ backslash ∷ []
    else if c == quote
    then backslash ∷ quote ∷ []
    else if c == double_quote
    then backslash ∷ double_quote ∷ []
    else if c == b'<'
    then backslash ∷ str "u003c"
    else if c == b'>'
    then backslash ∷ str "u003e"
    else if c == b'&'
    then backslash ∷ str "u0026"
    else if c == b'/'
    then backslash ∷ b'/' ∷ []
    else if c == 10
    then backslash ∷ b'n' ∷ []
    else if c == 13
    then backslash ∷ b'r' ∷ []
    else if c == 0x2028
    then backslash ∷ str "u2028"
    else if c == 0x2029
    then backslash ∷ str "u2029"
    else c ∷ []

unfoldable pub js_string_escape : Chars → Chars
unfolding js_char
js_string_escape [] = []
js_string_escape (c ∷ s) = js_char c ++ js_string_escape s
