-- ===== src/Util/Script/Literal.antt =====
-- What a JavaScript engine reads from an escaped text inside a single-quoted literal.
use mathlib.Core.List.{append_assoc}
use jetauth.Prelude.{
  All, All-append, ℕ, zero, suc, refl, ap, Bool, Option, none, some, [], arith, ◌+◌, ◌*◌, ◌≡◌, ◌≢◌,
  ◌||◌, ◌∷◌, ◌++◌, ◌∙◌, ◌==◌, if◌then◌else◌, nat_eq,
}
use jetauth.Util.Percent.{hex_val}
use jetauth.Util.Script.{Chars, quote, backslash, js_char, js_string_escape}

-- Where a scanner of a single-quoted literal stands: in the body, behind a backslash, or inside
-- `\u`, with the number of digits to come after the next and the value so far.
pub data Mode : Type 0 where
  body : Mode
  escape : Mode
  hex : ℕ → ℕ → Mode

is_line_end : ℕ → Bool
is_line_end c = c == 10 || c == 13 || c == 0x2028 || c == 0x2029

single_escape : ℕ → ℕ
single_escape e = if e == b'n' then 10 else if e == b'r' then 13 else e

abbrev emit : ℕ → Option (Chars × Chars) → Option (Chars × Chars)
emit c none = none
emit c (some (v, rest)) = some (c ∷ v, rest)

-- The value of the literal up to its closing quote, and what follows the quote; `none` for a
-- literal that does not end or that a line end breaks.
pub scan : Mode → Chars → Option (Chars × Chars)
scan body [] = none
scan body (c ∷ s) =
    let escaped = scan escape s in
    let rest = scan body s in
    if c == quote
    then some ([], s)
    else if c == backslash
    then escaped
    else if is_line_end c
    then none
    else emit c rest
scan escape [] = none
scan escape (e ∷ s) =
    let digits = scan (hex 3 0) s in
    let rest = scan body s in if e == b'u' then digits else emit (single_escape e) rest
scan (hex _ _) [] = none
scan (hex zero acc) (d ∷ s) =
    let rest = scan body s in elim (hex_val d) [ none ↦ none | some v ↦ emit (acc * 16 + v) rest ]
scan (hex (suc n) acc) (d ∷ s) = elim (hex_val d) [
  | none ↦ none
  | some v ↦ scan (hex n (acc * 16 + v)) s
]

scan-js_char : (c : ℕ) (t : Chars) → scan body (js_char c ++ t) ≡ emit c (scan body t)
unfolding scan js_char hex_val single_escape is_line_end
scan-js_char c t = ground arith

js_string_escape-cons :
    (c : ℕ) (s : Chars) → js_string_escape (c ∷ s) ≡ js_char c ++ js_string_escape s
unfolding js_string_escape
js_string_escape-cons c s = refl

-- A scanner of a single-quoted literal reads the escaped text back, and the literal ends at the quote
-- that stands behind it.
pub scan-js_string_escape :
    (s rest : Chars) → scan body (js_string_escape s ++ quote ∷ rest) ≡ some (s, rest)
scan-js_string_escape [] rest = unfold js_string_escape scan in refl
scan-js_string_escape (c ∷ s) rest =
    rw (js_string_escape-cons, append_assoc)
      (scan-js_char c (js_string_escape s ++ quote ∷ rest)
        ∙ ap (emit c) (scan-js_string_escape s rest))

-- No character that could open or close an element of the page around the script.
abbrev pub IsMarkupFree : ℕ → Type 0
IsMarkupFree c = (c ≢ b'<') × (c ≢ b'>') × (c ≢ b'&')

js_char-IsMarkupFree : (c : ℕ) → All IsMarkupFree (js_char c)
unfolding js_char
js_char-IsMarkupFree c = ground arith

-- The escaped text holds none of the characters <, > and &.
pub js_string_escape-IsMarkupFree : (s : Chars) → All IsMarkupFree (js_string_escape s)
js_string_escape-IsMarkupFree [] = unfold js_string_escape in tt
js_string_escape-IsMarkupFree (c ∷ s) = rw js_string_escape-cons (
    All-append IsMarkupFree (js_char c) (js_string_escape s) (js_char-IsMarkupFree c)
      (js_string_escape-IsMarkupFree s))
