-- ===== src/Totp/Digits.antt =====
-- The form of what `compute_totp` of oidc-gateway/src/totp.rs writes.
use jetauth.Prelude.{
  Text, length, All, ℕ, zero, suc, [], arith, ◌+◌, ◌-◌, ◌/◌, ◌%◌, ◌^◌, ◌≤◌, ◌<◌, ◌≡◌, ◌∷◌,
}
use jetauth.Util.Percent.RoundTrip.{IsByte}
use jetauth.Abuse.{digits, to_string}
use jetauth.Abuse.Decimal.{IsDigit, digits-IsNumber}
use jetauth.Totp.{zeros, pad_left, truncate, compute_totp, to_be_bytes, totp_digits}

digits-length_le :
    (fuel k n : ℕ) (written : Text)
    → n < 10 ^ suc k
    → length (digits fuel n written) ≤ suc k + length written
unfolding digits
digits-length_le zero k n written h = omega arith
digits-length_le (suc fuel) zero n written h = ground arith
digits-length_le (suc fuel) (suc k) n written h =
    ground (arith, digits-length_le fuel k (n / 10) ((b'0' + n % 10) ∷ written) (omega arith))

length-zeros : (n : ℕ) (t : Text) → length (zeros n t) ≡ n + length t
length-zeros zero t = omega arith
length-zeros (suc n) t = omega (arith, length-zeros n t)

zeros-All : (n : ℕ) (t : Text) → All IsDigit t → All IsDigit (zeros n t)
zeros-All zero t h = h
zeros-All (suc n) t h = ((omega arith, omega arith), zeros-All n t h)

digits-IsByte : (t : Text) → All IsDigit t → All IsByte t
digits-IsByte [] h = tt
digits-IsByte (c ∷ t) (h, hs) = (ground arith, digits-IsByte t hs)

to_string-digits : (n : ℕ) → All IsDigit (to_string n)
unfolding to_string
to_string-digits n = (digits-IsNumber (suc n) n [] (omega arith) tt).0

to_string-length_le : (k n : ℕ) → n < 10 ^ suc k → length (to_string n) ≤ suc k
unfolding to_string
to_string-length_le k n h = ground (arith, digits-length_le (suc n) k n [] h)

pad_left-digits : (width : ℕ) (t : Text) → All IsDigit t → All IsDigit (pad_left width t)
unfolding pad_left
pad_left-digits width t h = zeros-All (width - length t) t h

length-pad_left : (width : ℕ) (t : Text) → length t ≤ width → length (pad_left width t) ≡ width
unfolding pad_left
length-pad_left width t h = omega (arith, length-zeros (width - length t) t)

module _ (hmac_sha1 : (key message : Text) → Text) (secret : Text) (step : ℕ) where
  -- A code has six decimal digits.
  pub compute_totp-IsSixDigits :
      (length (compute_totp hmac_sha1 secret step) ≡ 6)
      × All IsDigit (compute_totp hmac_sha1 secret step)
  unfolding compute_totp
  compute_totp-IsSixDigits =
      let code = truncate (hmac_sha1 secret (to_be_bytes step)) % 10 ^ totp_digits in
      (
        length-pad_left 6 (to_string code) (to_string-length_le 5 code (omega arith)),
        pad_left-digits 6 (to_string code) (to_string-digits code),
      )

  pub compute_totp-IsByte : All IsByte (compute_totp hmac_sha1 secret step)
  compute_totp-IsByte = digits-IsByte _ compute_totp-IsSixDigits.1
