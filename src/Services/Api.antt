-- ===== src/Services/Api.antt =====
-- The handlers of the services: functions of the state that end with a value or an API error.
use jetauth.Prelude.{
  Text, str, Result, ok, err, ℕ, refl, Bool, true, false, Option, none, some, ◌≡◌,
}
use jetauth.Action.{Action}
use jetauth.Services.Authz.{ApiError, Verdict, granted, denied}

pub data Reply (A : Type 0) : Type 0 where
  done : A → Reply A
  failed : ApiError → Reply A

abbrev pub Api : Type 0 → Type 0 → Type 0
Api S A = S → Reply A × S

abbrev pub api_error : ℕ → Text → ApiError
api_error status message = record { status = status; message = message; detail = none }

-- `ApiError::internal`
abbrev pub internal_error : Text → ApiError
internal_error e = record { status = 500; message = str "internal error"; detail = some e }

abbrev pub of_verdict : Verdict → Reply (Unit {0})
of_verdict granted = done tt
of_verdict (denied e) = failed e

abbrev pub of_test : Bool → ApiError → Reply (Unit {0})
of_test true e = done tt
of_test false e = failed e

abbrev pub of_result : {A : Type 0} → Result A → Reply A
of_result (ok a) = done a
of_result (err e) = failed (internal_error e)

abbrev pub of_found : {A : Type 0} → ApiError → Result (Option A) → Reply A
of_found e (ok (some a)) = done a
of_found e (ok none) = failed e
of_found e (err x) = failed (internal_error x)

module _ {S A : Type 0} where
  -- A value, an error or a test that no request made.
  abbrev pub reply : Reply A → Api S A
  reply r s = (r, s)

  abbrev pub answers : (S → Reply A) → Api S A
  answers f s = (f s, s)

  -- `m.map_err(ApiError::internal)`
  abbrev pub internal : Action S A → Api S A
  internal m s = (of_result (m s).0, (m s).1)

module _ {S A B : Type 0} where
  abbrev continue : Reply A → (A → Api S B) → Api S B
  continue (done a) f s = f a s
  continue (failed e) f s = (failed e, s)

  infixl 5 ◌>>=◌ ◌>>◌
  unfoldable pub ◌>>=◌ : Api S A → (A → Api S B) → Api S B
  ◌>>=◌ m f s = continue (m s).0 f (m s).1

  abbrev pub ◌>>◌ : Api S A → Api S B → Api S B
  m >> n = m >>= λ _. n

  -- A block that is done has done its first step.
  pub bind-eq-done :
      (m : Api S A) (f : A → Api S B) (s : S) {b : B}
      → ((m >>= f) s).0 ≡ done b
      → (a : A) × ((m s).0 ≡ done a) × ((f a (m s).1).0 ≡ done b)
  unfolding ◌>>=◌
  bind-eq-done m f s {b} h = inspect (m s).0 refl h
    where
      inspect :
          (r : Reply A)
          → (m s).0 ≡ r
          → (continue r f (m s).1).0 ≡ done b
          → (a : A) × ((m s).0 ≡ done a) × ((f a (m s).1).0 ≡ done b)
      inspect (done a) e k = (a, e, k)
      inspect (failed x) e k = cc
