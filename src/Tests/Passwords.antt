-- ===== src/Tests/Passwords.antt =====
-- Concrete one-time passwords, with a toy function in place of HMAC-SHA1.
use jetauth.Prelude.{Text, str, All, ℕ, refl, true, some, arith, ◌≡◌, ◌↔◌, ◌++◌}
use jetauth.Util.Percent.RoundTrip.{IsByte}
use jetauth.Totp.{verify_totp}
use jetauth.Totp.Base32.{base32_encode, base32_decode}
use jetauth.Totp.Base32.RoundTrip.{base32_decode-encode}
use jetauth.Totp.Window.{IsCodeOf, IsNear, verify_totp_iff}

-- The key, and the message behind it: twenty bytes for the secret below.
abbrev toy_hmac : (key message : Text) → Text
toy_hmac key message = key ++ message

abbrev secret : Text
secret = str "123456789012"

abbrev code : Text
code = str "059510"

secret-IsByte : All IsByte secret
secret-IsByte = ground arith

code-IsByte : All IsByte code
code-IsByte = ground arith

base32_decode-encode_example : base32_decode (base32_encode secret) ≡ some secret
base32_decode-encode_example = base32_decode-encode secret secret-IsByte

verify_totp_iff_example :
    (verify_totp toy_hmac (base32_encode secret) code 60 ≡ true)
    ↔ ((step : ℕ) × IsNear toy_hmac 60 step × IsCodeOf toy_hmac secret code step)
verify_totp_iff_example =
    verify_totp_iff toy_hmac secret code 60 secret-IsByte code-IsByte (omega arith) (omega arith)

-- The code is that of the second step, which the clock is in.
code_accepted : verify_totp toy_hmac (base32_encode secret) code 60 ≡ true
unfolding verify_totp base32_encode
code_accepted = refl
