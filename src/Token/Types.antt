-- ===== src/Token/Types.antt =====
-- What the handlers of oidc-gateway/src/token.rs take and answer.
use jetauth.Json.{Fields}
use jetauth.Store.Types.{OidcClient}
use jetauth.Prelude.{
  Text, str, ltb, Result, ℕ, zero, suc, Bool, false, not, Option, List, [], ◌+◌, ◌-◌, ◌/◌, ◌%◌, ◌∷◌,
  ◌==◌, if◌then◌else◌, text_eq,
}

-- The body of a success.
pub record TokenResponse : Type 0 where
  pub access_token : Text
  pub token_type : Text
  pub expires_in : ℕ
  pub id_token : Option Text
  pub scope : Text
  pub refresh_token : Option Text

-- A response: tokens with status 200, or `token_error`.
pub data Response : Type 0 where
  tokens : TokenResponse → Response
  token_error : (status : ℕ) (error description : Text) → Response

-- What the handlers use of other parts: SHA-256, base64url without padding, and the signing of
-- claims with the current keys, which reads the store.
pub record Host (State : Type 0) : Type 0 where
  pub sha256 : Text → Text
  pub base64url : Text → Text
  pub sign : Fields → State → Result Text
  pub sign_id_token_for_client : Fields → OidcClient → State → Result Text

-- What a request brings: its form, the client that has been authenticated, the thumbprint of its
-- DPoP key if it has one, the issuer, what `unix_now` gives at each place that calls it, and what
-- `random_hex(32)` gives.
pub record Request : Type 0 where
  pub form : List (Text × Text)
  pub client : OidcClient
  pub dpop_jkt : Option Text
  pub issuer : Text
  pub now : ℕ → ℕ
  pub random : Text

-- A digit of `{b:02x}`.
unfoldable pub lower_hex_digit : ℕ → ℕ
lower_hex_digit n = if ltb n 10 then b'0' + n else b'a' + (n - 10)

unfoldable pub lower_hex : Text → Text
unfolding lower_hex_digit
lower_hex [] = []
lower_hex (b ∷ bs) = lower_hex_digit (b / 16) ∷ lower_hex_digit (b % 16) ∷ lower_hex bs

abbrev pub take : ℕ → Text → Text
take zero s = []
take (suc n) [] = []
take (suc n) (b ∷ s) = b ∷ take n s

module _ {State : Type 0} (host : Host State) where
  unfoldable pub hex_sha256 : Text → Text
  hex_sha256 input = lower_hex (host.sha256 input)

  -- The left half of the hash.
  unfoldable pub compute_at_hash : Text → Text
  compute_at_hash access_token = host.base64url (take 16 (host.sha256 access_token))

  unfoldable pub verify_pkce : Text → Text → Text → Bool
  verify_pkce code_verifier code_challenge method =
      if not (method == str "S256")
      then false
      else host.base64url (host.sha256 code_verifier) == code_challenge
