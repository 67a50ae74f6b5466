-- ===== src/Totp.antt =====
-- One-time passwords: oidc-gateway/src/totp.rs.
pub mod Base32
pub mod ConstantTime
pub mod Digits
pub mod Window
pub mod Uri
use jetauth.Prelude.{
  Text, length, ℕ, zero, suc, Bool, true, false, Option, none, some, List, [], ◌+◌, ◌-◌, ◌*◌, ◌/◌,
  ◌%◌, ◌^◌, ◌∷◌, if◌then◌else◌,
}
use jetauth.Totp.Base32.{base32_decode, symbol}
use jetauth.Totp.ConstantTime.{constant_time_eq}
use jetauth.Abuse.{to_string}

abbrev pub totp_period : ℕ
totp_period = 30

abbrev pub totp_digits : ℕ
totp_digits = 6

-- `result[i]`: the MAC has 20 bytes, and `i` is below 19.
abbrev pub byte_at : Text → ℕ → ℕ
byte_at [] i = 0
byte_at (b ∷ t) zero = b
byte_at (b ∷ t) (suc i) = byte_at t i

-- `to_be_bytes` of a `u64`
abbrev pub to_be_bytes : ℕ → Text
to_be_bytes n =
    n / 2 ^ 56 % 256
    ∷ n / 2 ^ 48 % 256
    ∷ n / 2 ^ 40 % 256
    ∷ n / 2 ^ 32 % 256
    ∷ n / 2 ^ 24 % 256
    ∷ n / 2 ^ 16 % 256
    ∷ n / 2 ^ 8 % 256
    ∷ n % 256
    ∷ []

-- `{otp:0>width$}`: zeros in front, up to the width.
abbrev pub zeros : ℕ → Text → Text
zeros zero t = t
zeros (suc n) t = b'0' ∷ zeros n t

unfoldable pub pad_left : ℕ → Text → Text
pad_left width t = zeros (width - length t) t

-- The dynamic truncation of RFC 4226: the four bytes fill the bits one beside the other.
unfoldable pub truncate : Text → ℕ
truncate mac =
    let offset = byte_at mac 19 % 16 in
    byte_at mac offset % 128 * 2 ^ 24
    + byte_at mac (offset + 1) * 2 ^ 16
    + byte_at mac (offset + 2) * 2 ^ 8
    + byte_at mac (offset + 3)

-- The steps in the order in which they are tried.
abbrev pub steps_around : ℕ → List ℕ
steps_around current_step =
    (current_step + (2 ^ 64 - 1)) % 2 ^ 64 ∷ current_step ∷ (current_step + 1) ∷ []

abbrev pub is_some : Option ℕ → Bool
is_some none = false
is_some (some _) = true

-- HMAC-SHA1 is of another crate.
module _ (hmac_sha1 : (key message : Text) → Text) where
  unfoldable pub compute_totp : (secret : Text) → (time_step : ℕ) → Text
  unfolding truncate pad_left to_string
  compute_totp secret time_step =
      pad_left totp_digits
        (to_string (truncate (hmac_sha1 secret (to_be_bytes time_step)) % 10 ^ totp_digits))

  unfoldable pub first_match : (secret code : Text) → List ℕ → Option ℕ
  unfolding compute_totp constant_time_eq
  first_match secret code [] = none
  first_match secret code (step ∷ steps) =
      let rest = first_match secret code steps in
      if constant_time_eq code (compute_totp secret step) then some step else rest

  abbrev pub match_secret : (code : Text) → (now : ℕ) → Option Text → Option ℕ
  match_secret code now none = none
  match_secret code now (some secret) = first_match secret code (steps_around (now / totp_period))

  -- `now` is what the clock gives in seconds.
  unfoldable pub verify_totp_step : (secret_b32 code : Text) → (now : ℕ) → Option ℕ
  unfolding first_match base32_decode symbol
  verify_totp_step secret_b32 code now = match_secret code now (base32_decode secret_b32)

  unfoldable pub verify_totp : (secret_b32 code : Text) → (now : ℕ) → Bool
  unfolding verify_totp_step
  verify_totp secret_b32 code now = is_some (verify_totp_step secret_b32 code now)
