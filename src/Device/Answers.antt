-- ===== src/Device/Answers.antt =====
-- What the handlers of oidc-gateway/src/device.rs answer.
use jetauth.Prelude.{
  Text, str, ℕ, Bool, true, false, Option, some, [], ◌||◌, ◌∷◌, ◌==◌, if◌then◌else◌, nat_eq,
}

-- The page for the user code with its error, the outcome page with its title, a redirect to the
-- login page, an error in JSON, or the codes of a new request.
pub data Answer : Type 0 where
  device_page : (user_code : Text) → (error : Option Text) → Answer
  outcome_page : (title : Text) → (success : Bool) → Answer
  login_redirect : (session_id : Text) → Answer
  json_error : (status : ℕ) → (error description : Text) → Answer
  started :
      (device_code user_code verification_uri verification_uri_complete : Text)
      → (expires_in interval : ℕ) → Answer

abbrev pub page_error : Text → Answer
page_error error = device_page [] (some error)

abbrev pub activated : Answer
activated = outcome_page (str "Device Activated!") true

abbrev pub declined : Answer
declined = outcome_page (str "Device Not Authorized") false

-- `replace(['-', ' '], "")`
unfoldable pub without : (drop : ℕ → Bool) → Text → Text
without drop [] = []
without drop (c ∷ t) = let rest = without drop t in if drop c then rest else c ∷ rest

abbrev pub is_hyphen : ℕ → Bool
is_hyphen c = c == b'-'

abbrev pub is_separator : ℕ → Bool
is_separator c = c == b'-' || c == b' '
