-- ===== src/Token/Introspect/Disclosed.antt =====
-- What the introspection of oidc-gateway/src/token.rs has tested where it tells the claims of a token.
use jetauth.Prelude.{Text, str, Result, ok, ℕ, true, false, ◌≡◌, text_eq}
use jetauth.Kv.{Kv}
use jetauth.Json.{Json, Fields}
use jetauth.Store.Wire.{Wire}
use jetauth.ClientAuth.{AuthenticatedClient, Verifier}
use jetauth.ClientAuth.Proved.{IsProved}
use jetauth.Token.Introspect.{
  introspectable_token_type, build_introspection_response, is_public, ask_rate,
}

module _ {Payload : Type 0} (kv : Kv Payload) (wire : Wire Payload) (verifier : Verifier)
    (verify : Text → kv.State → Result Json) (now : ℕ → ℕ) (rate_now : ℕ) (issuer : Text) where
  -- What has been tested before the claims are told.
  abbrev pub Discloses : (token : Text) → Fields → Type 0
  Discloses token fields =
      (auth : AuthenticatedClient) × (left : ℕ) × (s : kv.State) × (claims : Json) × IsProved kv
        wire verifier now issuer (str "/token/introspect") auth
      × (is_public auth ≡ false)
      × ((ask_rate kv wire verifier verify now rate_now issuer auth.client s).0
          ≡ ok (ok (true, left)))
      × (verify token (ask_rate kv wire verifier verify now rate_now issuer auth.client s).1
          ≡ ok claims)
      × (introspectable_token_type claims ≡ true)
      × (fields ≡ build_introspection_response claims)
