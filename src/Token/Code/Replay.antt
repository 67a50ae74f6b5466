-- ===== src/Token/Code/Replay.antt =====
-- A second request with an authorization code that `handle_code_exchange` of
-- oidc-gateway/src/token.rs has answered with tokens.
use jetauth.Prelude.{Text, ℕ, refl, none, some, ◌≡◌, ◌⊎◌, ◌∙◌, text_eq}
use jetauth.Kv.{Kv}
use jetauth.Action.{bind-ok}
use jetauth.Store.Wire.{Wire}
use jetauth.Store.Access.{sessions}
use jetauth.Store.Codes.{code_key, consume_auth_code}
use jetauth.Token.Types.{Host, Request}
use jetauth.Token.Code.{redeem_code, issue_for_code, handle_code_exchange}
use jetauth.Token.Code.Checks.{check_auth_code_iff}
use jetauth.Token.Code.Success.{Redeemed}

module _ {Payload : Type 0} (kv : Kv Payload) (wire : Wire Payload) (host : Host kv.State)
    (code : Text) where
  -- The entry of the code is gone, or is the consumed marker.
  abbrev pub IsUsed : kv.State → Type 0
  IsUsed s =
      (kv.view s sessions (code_key code) ≡ none)
      ⊎ ((q : ℕ) × (kv.view s sessions (code_key code) ≡ some (wire.consumed, q)))

module _ {Payload : Type 0} (kv : Kv Payload) (wire : Wire Payload) (host : Host kv.State) where
  pub handle_code_exchange-issue :
      (req : Request) (s : kv.State) (r : Redeemed kv wire host req s)
      → handle_code_exchange kv wire host req s
        ≡ issue_for_code kv wire host req r.code r.auth_code
            (consume_auth_code kv wire r.code r.revision s).1
  unfolding handle_code_exchange redeem_code
  handle_code_exchange-issue req s r =
      bind-ok _ _ s {a = r.code} (rw r.has_code refl)
      ∙ bind-ok _ _ s {a = r.redirect_uri} (rw r.has_redirect_uri refl)
      ∙ bind-ok _ _ s {a = tt} (rw r.may_use_grant refl)
      ∙ bind-ok _ _ s {a = (r.auth_code, r.revision)} (rw r.stored refl)
      ∙ bind-ok _ _ s
          ((check_auth_code_iff host req.client r.redirect_uri _ _ r.auth_code).1 r.redeemable)
      ∙ bind-ok _ _ s {a = tt} (rw r.consumed refl)
