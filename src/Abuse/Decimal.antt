-- ===== src/Abuse/Decimal.antt =====
-- The counter that oidc-gateway/src/abuse.rs writes, read again.
use jetauth.Prelude.{
  Text, All, ltb, Bool-cases, ℕ, zero, suc, refl, inl, inr, some, [], arith, is_whitespace, ◌+◌,
  ◌/◌, ◌%◌, ◌^◌, ◌≤◌, ◌<◌, ◌≡◌, ◌≢◌, ◌∷◌, ◌∙◌, text_eq, nat_eq,
}
use jetauth.Util.Utf8.Ascii.{IsAscii, ascii-IsUtf8}
use jetauth.Abuse.{digits, to_string, parse_digits, parse, trim_start, trim_end, count_of}

abbrev pub IsDigit : ℕ → Type 0
IsDigit c = (b'0' ≤ c) × (c ≤ b'9')

parse_digits-digits :
    (fuel n : ℕ) (written : Text)
    → n < fuel
    → parse_digits 0 (digits fuel n written) ≡ parse_digits n written
unfolding parse_digits digits
parse_digits-digits zero n written h = absurd (omega arith)
parse_digits-digits (suc fuel) n written h =
    ground (arith, parse_digits-digits fuel (n / 10) ((b'0' + n % 10) ∷ written))

-- Digits, and at least one.
abbrev pub IsNumber : Text → Type 0
IsNumber t = All IsDigit t × (t ≢ [])

pub digits-IsNumber :
    (fuel n : ℕ) (written : Text)
    → n < fuel
    → All IsDigit written
    → IsNumber (digits fuel n written)
unfolding digits
digits-IsNumber zero n written h w = absurd (omega arith)
digits-IsNumber (suc fuel) n written h w = elim (Bool-cases (ltb n 10)) [
  | inl small ↦ rw small (((ground arith, ground arith), w), λ e. cc)
  | inr large ↦ rw large (
      digits-IsNumber fuel (n / 10) ((b'0' + n % 10) ∷ written) (ground arith)
        ((omega arith, omega arith), w))
]

trim_start-digits : (t : Text) → IsNumber t → trim_start t ≡ t
unfolding trim_start is_whitespace
trim_start-digits [] (_, n) = refl
trim_start-digits (c ∷ t) ((h, _), _) = ground arith

trim_end-digits : (t : Text) → All IsDigit t → trim_end t ≡ t
unfolding trim_end is_whitespace
trim_end-digits [] h = refl
trim_end-digits (c ∷ t) (h, hs) = ground (arith, trim_end-digits t hs)

parse-digits : (t : Text) → IsNumber t → parse t ≡ parse_digits 0 t
parse-digits [] (_, n) = absurd (n refl)
parse-digits (c ∷ t) ((h, _), _) = ground arith

digits-IsAscii : (t : Text) → All IsDigit t → All IsAscii t
digits-IsAscii [] h = tt
digits-IsAscii (c ∷ t) (h, hs) = (ground arith, digits-IsAscii t hs)

-- A 64-bit counter that is written is read as itself.
pub count_of-to_string : (n : ℕ) → n < 2 ^ 64 → count_of (to_string n) ≡ n
unfolding count_of to_string
count_of-to_string n h =
    let number = digits-IsNumber (suc n) n [] (omega arith) tt in
    let utf8 = ascii-IsUtf8 (digits (suc n) n []) (digits-IsAscii _ number.0) in
    let parsed : parse_digits 0 (digits (suc n) n []) ≡ some n =
      parse_digits-digits (suc n) n [] (omega arith) ∙ (unfold parse_digits in refl) in
    rw (utf8, trim_start-digits _ number, trim_end-digits _ number.0, parse-digits _ number, parsed)
      (ground arith)
