-- ===== src/Totp/Uri.antt =====
-- The address behind the QR code: `otpauth_uri` of oidc-gateway/src/totp.rs, with a percent
-- encoding of its own.
use jetauth.Prelude.{
  Text, str, leb, Bool-cases, ℕ, refl, ap, inl, inr, Bool, [], ◌/◌, ◌%◌, ◌≡◌, ◌&&◌, ◌||◌, ◌∷◌, ◌++◌,
  ◌==◌, if◌then◌else◌, nat_eq,
}
use jetauth.Util.Percent.{hex_digit, is_unreserved}
use jetauth.Util.Percent as Util

abbrev is_plain : ℕ → Bool
is_plain b =
    leb b'A' b && leb b b'Z'
    || leb b'a' b && leb b b'z'
    || leb b'0' b && leb b b'9'
    || b == b'-'
    || b == b'_'
    || b == b'.'
    || b == b'~'

unfoldable pub percent_encode : Text → Text
percent_encode [] = []
percent_encode (b ∷ s) =
    let rest = percent_encode s in
    if is_plain b then b ∷ rest else b'%' ∷ hex_digit (b / 16) ∷ hex_digit (b % 16) ∷ rest

unfoldable pub otpauth_uri : (secret_b32 email issuer : Text) → Text
unfolding percent_encode
otpauth_uri secret_b32 email issuer =
    str "otpauth://totp/"
    ++ (percent_encode issuer
        ++ (b':'
            ∷ (percent_encode email
                ++ (str "?secret="
                    ++ (secret_b32
                        ++ (str "&issuer="
                            ++ (percent_encode issuer
                                ++ str "&algorithm=SHA1&digits=6&period=30")))))))

-- It is the encoding of util.rs.
pub percent_encode-agrees : (t : Text) → percent_encode t ≡ Util.percent_encode t
unfolding percent_encode Util.percent_encode Util.encode_byte is_unreserved
percent_encode-agrees [] = refl
percent_encode-agrees (b ∷ t) = elim (Bool-cases (is_plain b)) [
  | inl plain ↦ rw plain (ap (λ r. b ∷ r) (percent_encode-agrees t))
  | inr other ↦
      rw other
        (ap (λ r. b'%' ∷ hex_digit (b / 16) ∷ hex_digit (b % 16) ∷ r) (percent_encode-agrees t))
]
