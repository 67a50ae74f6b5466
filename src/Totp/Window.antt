-- ===== src/Totp/Window.antt =====
-- Which codes `verify_totp_step` of oidc-gateway/src/totp.rs accepts, and at which steps.
use jetauth.Prelude.{
  Text, All, Bool-cases, ℕ, refl, sym, ap, inl, inr, true, Option, none, some, List, [], arith,
  Among, ◌+◌, ◌/◌, ◌^◌, ◌≤◌, ◌<◌, ◌≡◌, ◌↔◌, ◌⊎◌, ◌∷◌, ◌∙◌,
}
use jetauth.Util.Percent.RoundTrip.{IsByte}
use jetauth.Totp.Base32.{base32_encode}
use jetauth.Totp.Base32.RoundTrip.{base32_decode-encode}
use jetauth.Totp.ConstantTime.{constant_time_eq, constant_time_eq_iff}
use jetauth.Totp.Digits.{compute_totp-IsByte}
use jetauth.Totp.{
  compute_totp, first_match, steps_around, verify_totp_step, totp_period, match_secret, is_some,
  verify_totp,
}

module _ (hmac_sha1 : (key message : Text) → Text) where
  -- A step whose code, under the secret, is this one.
  abbrev pub IsCodeOf : (secret code : Text) → ℕ → Type 0
  IsCodeOf secret code step = code ≡ compute_totp hmac_sha1 secret step

  -- The code's own step, the one before or the one after.
  abbrev pub IsNear : (now step : ℕ) → Type 0
  IsNear now step =
      (step ≡ now / totp_period) ⊎ ((step ≡ now / totp_period + 1) ⊎ (step + 1 ≡ now / totp_period))

  code_test :
      (secret code : Text) (step : ℕ)
      → All IsByte code
      → (constant_time_eq code (compute_totp hmac_sha1 secret step) ≡ true)
        ↔ IsCodeOf secret code step
  code_test secret code step h =
      constant_time_eq_iff code _ h (compute_totp-IsByte hmac_sha1 secret step)

  first_match_sound :
      (secret code : Text) (steps : List ℕ) (step : ℕ)
      → All IsByte code
      → first_match hmac_sha1 secret code steps ≡ some step
      → Among steps step × IsCodeOf secret code step
  unfolding first_match
  first_match_sound secret code [] step h e = cc
  first_match_sound secret code (x ∷ xs) step h e =
      elim (Bool-cases (constant_time_eq code (compute_totp hmac_sha1 secret x))) [
        | inl hit ↦
            let same : step ≡ x = ground arith in
            (inl same, rw same ((code_test secret code x h).0 hit))
        | inr miss ↦
            let (m, c) = first_match_sound secret code xs step h (ground arith) in (inr m, c)
      ]

  first_match_complete :
      (secret code : Text) (steps : List ℕ) (step : ℕ)
      → All IsByte code
      → Among steps step
      → IsCodeOf secret code step
      → (found : ℕ) × (first_match hmac_sha1 secret code steps ≡ some found)
  unfolding first_match
  first_match_complete secret code [] step h m c = absurd m
  first_match_complete secret code (x ∷ xs) step h (inl e) c =
      (x, rw ((code_test secret code x h).1 (rw (← e) c)) refl)
  first_match_complete secret code (x ∷ xs) step h (inr m) c =
      elim (Bool-cases (constant_time_eq code (compute_totp hmac_sha1 secret x))) [
        | inl hit ↦ (x, rw hit refl)
        | inr miss ↦ rw miss (first_match_complete secret code xs step h m c)
      ]

  steps_around-IsNear :
      (now step : ℕ)
      → totp_period ≤ now
      → now < 2 ^ 64
      → Among (steps_around (now / totp_period)) step ↔ IsNear now step
  steps_around-IsNear now step h l = (λ m. ground arith, λ m. ground arith)

  decoded :
      (secret code : Text) (now found : ℕ)
      → All IsByte secret
      → first_match hmac_sha1 secret code (steps_around (now / totp_period)) ≡ some found
      → verify_totp_step hmac_sha1 (base32_encode secret) code now ≡ some found
  unfolding verify_totp_step
  decoded secret code now found hs e =
      ap (match_secret hmac_sha1 code now) (base32_decode-encode secret hs) ∙ e

  -- A step that is found is near, and the code is the step's.
  pub verify_totp_step-IsNear :
      (secret code : Text) (now step : ℕ)
      → All IsByte secret
      → All IsByte code
      → totp_period ≤ now
      → now < 2 ^ 64
      → verify_totp_step hmac_sha1 (base32_encode secret) code now ≡ some step
      → IsNear now step × IsCodeOf secret code step
  unfolding verify_totp_step
  verify_totp_step-IsNear secret code now step hs hc p l e =
      let (m, c) =
        first_match_sound secret code (steps_around (now / totp_period)) step hc
          (ap (match_secret hmac_sha1 code now) (sym (base32_decode-encode secret hs)) ∙ e) in
      ((steps_around-IsNear now step p l).0 m, c)

  -- A code is accepted exactly where it is that of the step of the clock, of the step before or of
  -- the step after, for a secret that was written in base32, and a clock past the first step.
  pub verify_totp_iff :
      (secret code : Text) (now : ℕ)
      → All IsByte secret
      → All IsByte code
      → totp_period ≤ now
      → now < 2 ^ 64
      → (verify_totp hmac_sha1 (base32_encode secret) code now ≡ true)
        ↔ ((step : ℕ) × IsNear now step × IsCodeOf secret code step)
  unfolding verify_totp
  verify_totp_iff secret code now hs hc p l = (
    λ e.
        let (step, s) = is_some-true _ e in
        let (near, c) = verify_totp_step-IsNear secret code now step hs hc p l s in (step, near, c),
    λ (step, near, c).
        let (found, s) =
          first_match_complete secret code (steps_around (now / totp_period)) step hc
            ((steps_around-IsNear now step p l).1 near) c in
        rw (decoded secret code now found hs s) refl,
  )
    where
      is_some-true : (o : Option ℕ) → is_some o ≡ true → (step : ℕ) × (o ≡ some step)
      is_some-true none e = cc
      is_some-true (some step) e = (step, refl)
