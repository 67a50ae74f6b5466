-- ===== src/Authorize/Safe.antt =====
-- Where the answers of oidc-gateway/src/authorize.rs go, and what the codes and the sessions that
-- they carry are bound to.
use jetauth.Prelude.{Text, str, starts_with, ok, true, [], ◌≡◌, ◌≢◌, text_eq}
use jetauth.Kv.{Kv}
use jetauth.Action.{Action}
use jetauth.Store.Wire.{Wire}
use jetauth.Authorize.Flow.{Answer, error_redirect, code_redirect, consent_page, login_page, Flow}

-- A redirect goes to this address; a code and a session are bound to it and to an S256 challenge.
abbrev pub IsBoundTo : (redirect_uri : Text) → Answer → Type 0
IsBoundTo uri (error_redirect target location) = (target ≡ uri) × (starts_with location uri ≡ true)
IsBoundTo uri (code_redirect target location) = (target ≡ uri) × (starts_with location uri ≡ true)
IsBoundTo uri (consent_page code auth_code) =
    (auth_code.redirect_uri ≡ uri)
    × (auth_code.code_challenge ≢ [])
    × (auth_code.code_challenge_method ≡ str "S256")
    × (auth_code.pending_consent ≡ true)
IsBoundTo uri (login_page session_id session) =
    (session.redirect_uri ≡ uri)
    × (session.code_challenge ≢ [])
    × (session.code_challenge_method ≡ str "S256")

module _ {Payload : Type 0} (kv : Kv Payload) (wire : Wire Payload) (issuer : Text) where
  -- Whatever a step answers, it is bound to the address.
  abbrev Bound : Text → Action kv.State Answer → Type 0
  Bound uri m = (s : kv.State) (a : Answer) → (m s).0 ≡ ok a → IsBoundTo uri a
