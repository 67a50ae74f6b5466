-- ===== src/Token/Code/Refused.antt =====
-- A code that `handle_code_exchange` of oidc-gateway/src/token.rs reads and refuses.
use jetauth.Prelude.{Text, str, contains, ok, err, ℕ, refl, true, some, ◌≡◌, ◌∙◌, text_eq}
use jetauth.Kv.{Kv}
use jetauth.Action.{bind-ok, bind-err}
use jetauth.Util.Query.{form_value}
use jetauth.Store.Types.{AuthCode}
use jetauth.Store.Wire.{Wire}
use jetauth.Store.Codes.{get_auth_code_cas}
use jetauth.Token.Types.{Host, Request}
use jetauth.Token.Code.{check_auth_code, redeem_code, handle_code_exchange}

module _ {Payload : Type 0} (kv : Kv Payload) (wire : Wire Payload) (host : Host kv.State) where
  -- Where the stored code fails one of the tests, the request ends with that test's error and the
  -- store is as it was: the code has not been consumed.
  pub handle_code_exchange-refused :
      (req : Request) (s : kv.State) (code redirect_uri : Text) (auth_code : AuthCode)
      (revision : ℕ) (e : Text)
      → form_value req.form (str "code") ≡ some code
      → form_value req.form (str "redirect_uri") ≡ some redirect_uri
      → contains req.client.grant_types (str "authorization_code") ≡ true
      → get_auth_code_cas kv wire code s ≡ ok (some (auth_code, revision))
      → check_auth_code host req.client redirect_uri
          (form_value req.form (str "code_verifier"))
          (req.now 0)
          auth_code
        ≡ err e
      → handle_code_exchange kv wire host req s ≡ (err e, s)
  unfolding handle_code_exchange redeem_code
  handle_code_exchange-refused req s code redirect_uri auth_code revision e has_code has_uri may
        stored refused =
      bind-ok _ _ s {a = code} (rw has_code refl)
      ∙ bind-ok _ _ s {a = redirect_uri} (rw has_uri refl)
      ∙ bind-ok _ _ s {a = tt} (rw may refl)
      ∙ bind-ok _ _ s {a = (auth_code, revision)} (rw stored refl)
      ∙ bind-err _ _ s refused
